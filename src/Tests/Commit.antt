-- ===== src/Tests/Commit.antt =====
-- A batch of one block whose two writes go into the tree of the guards, and its commitment.
use zksync_os_zisk.Merkle.Tree.{TreeHashed}
use zksync_os_zisk.Prelude.{
  ◌⊎◌, ◌≡◌, refl, Bool, true, false, none, some, [], ◌∷◌, Result, ok, err, arith,
}
use zksync_os_zisk.Prelude.Bytes.{be_bytes, le_bytes}
use zksync_os_zisk.Merkle.Hash.{UnlessCollision, hash_leaf, empty_subtree_hash}
use zksync_os_zisk.Merkle.Walk.{apply}
use zksync_os_zisk.Types.{BatchInput}
use zksync_os_zisk.FixedHeight.{empty_loop, fold_leaves}
use zksync_os_zisk.Commitment.{v31, atlas_v4, ChainConfig}
use zksync_os_zisk.Commitment.Output.{SameOutput}
use zksync_os_zisk.Commitment.Config.{IsChainConfig}
use zksync_os_zisk.Executor
use zksync_os_zisk.Executor.Ring.Chain.{RingHashed, ring_commitment}
use zksync_os_zisk.Executor.Commit.{Evm, Imports, CommitPanic, StateFields, Summary}
use zksync_os_zisk.Executor.Commit.Summarize.{summarize}
use zksync_os_zisk.Executor.Commit.Binding.{
  StatesHashed, BatchHashed, IsStateFields, IsSummary, SameConfigs, UnlessEither, commit_inj,
}
use zksync_os_zisk.Executor.Commit.Transition.{Committed, summarize_sound}
use zksync_os_zisk.Tests.Toy.{
  toy_blake2s, toy_keccak, toy_hash, guards, tree_root-guards, guards-StoreFits, guards-IsLinked,
}
use zksync_os_zisk.Tests.Merkle.{two_writes-IsBatchTreeUpdate}
use zksync_os_zisk.Tests.Executor.{ordered_specs, batch, updated, two_entries}
use zksync_os_zisk.Tests.Ring.{chain, chain_fits, first_block}
use zksync_os_zisk.Tests.Commitment.{output, output-IsBatchOutputFields}

-- An execution with no logs, whose writes are the two entries.
abbrev toy_evm : Evm (Unit {0})
toy_evm = record {
  seed = λ ring number. tt;
  execute_block = λ block s. (
    record {
      block_number = block.number;
      computed_block_header_hash = 77;
      tx_results = [];
      l2_to_l1_logs = [];
    },
    s,
  );
  insert_block_hash = λ number hash s. s;
  revm_writes = λ s. two_entries;
}

instance no_imports : Imports
no_imports = record { fold_system_tx_interop_roots = λ timed hash encoded found. none }

abbrev one_block : BatchInput
one_block = record batch {
  spec_id = 0;
  blocks = first_block ∷ [];
  batch_meta = record updated { block_hashes_blake_before = ring_commitment chain 2 };
}

is_ok : Result CommitPanic Summary → Bool
is_ok (ok m) = true
is_ok (err e) = false

summary_of : (r : Result CommitPanic Summary) → is_ok r ≡ true → (m : Summary) × (r ≡ ok m)
summary_of (ok m) e = (m, refl)
summary_of (err p) e = absurd (unfold is_ok in cc)

one_block_runs : is_ok (summarize toy_evm one_block Executor.atlas_v1) ≡ true
unfolding is_ok summarize ring_commitment apply empty_subtree_hash hash_leaf toy_blake2s toy_keccak
    toy_hash be_bytes le_bytes ordered_specs no_imports empty_loop fold_leaves
one_block_runs = refl

one_summary : (m : Summary) × (summarize toy_evm one_block Executor.atlas_v1 ≡ ok m)
one_summary = summary_of (summarize toy_evm one_block Executor.atlas_v1) one_block_runs

summarize_sound_example :
    UnlessCollision
      (λ x. RingHashed chain first_block.number x ⊎ TreeHashed guards x)
      (Committed toy_evm one_block first_block [] guards chain one_summary.0)
summarize_sound_example =
    summarize_sound toy_evm one_block Executor.atlas_v1 first_block [] guards chain one_summary.0
      refl (two_writes-IsBatchTreeUpdate, omega arith) guards-StoreFits guards-IsLinked
      tree_root-guards refl (omega arith) (omega arith) (omega arith) chain_fits refl one_summary.1

abbrev some_state : StateFields
some_state = record {
  tree_root = 804;
  leaf_count = 2;
  block_number = 7;
  block_hashes = 3;
  last_block_timestamp = 1600000000;
}

some_state-IsStateFields : IsStateFields some_state
some_state-IsStateFields = record {
  root_fits = omega arith;
  count_fits = omega arith;
  number_fits = omega arith;
  hashes_fit = omega arith;
  time_fits = omega arith;
}

abbrev some_config : ChainConfig
some_config = record {
  chain_id = 270;
  fri_proof_verification_enabled = true;
  max_tx_gas_limit = 16777216;
  pubdata_content = 1;
  l1_tx_filtering_enabled = false;
  large_contracts_enabled = false;
}

some_config-IsChainConfig : IsChainConfig some_config
some_config-IsChainConfig = record { chain_id_fits = omega arith; limit_fits = omega arith }

abbrev some_summary : Summary
some_summary = record {
  before = some_state;
  after = record some_state { leaf_count = 2; block_number = 7 };
  layout = v31;
  output = output;
  config = some (atlas_v4, some_config);
}

some_summary-IsSummary : IsSummary some_summary
some_summary-IsSummary = record {
  before_fits = some_state-IsStateFields;
  after_fits = some_state-IsStateFields;
  output_fits = output-IsBatchOutputFields;
  config_fits = some_config-IsChainConfig;
}

commit_inj_example : UnlessEither (StatesHashed some_summary) (BatchHashed some_summary) (
    (some_summary.before ≡ some_summary.before)
    × (some_summary.after ≡ some_summary.after)
    × (some_summary.layout ≡ some_summary.layout)
    × SameOutput some_summary.layout some_summary.output some_summary.output
    × SameConfigs some_summary.config some_summary.config)
commit_inj_example =
    commit_inj some_summary some_summary some_summary-IsSummary some_summary-IsSummary refl
