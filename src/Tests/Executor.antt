-- ===== src/Tests/Executor.antt =====
-- The checks on a batch, for a batch of one block, and the check of its writes against a tree update.
use zksync_os_zisk.Prelude.{◌≡◌, refl, false, none, some, [], ◌∷◌, leb, ok, length, arith}
use zksync_os_zisk.Prelude.Bytes.{be_bytes, le_bytes}
use zksync_os_zisk.Merkle.Hash.{B256, UnlessCollision, hash_leaf, empty_subtree_hash}
use zksync_os_zisk.Merkle.Tree.{TreeHashed, Store, IsLinked, value_of, tree_root}
use zksync_os_zisk.Merkle.Walk.{apply}
use zksync_os_zisk.Types.{BatchInput, BlockInput, BatchMeta}
use zksync_os_zisk.Executor.{SpecCrate, atlas_v4, tier, resolve_spec_and_validate}
use zksync_os_zisk.Executor.Valid.{IsValidBatch, resolve_spec_and_validate_lem}
use zksync_os_zisk.Executor.TreeUpdate.{Entries, lookup, verify_tree_update}
use zksync_os_zisk.Executor.TreeUpdate.Writes.{or_else}
use zksync_os_zisk.Executor.TreeUpdate.Refines.{verify_tree_update_refines}
use zksync_os_zisk.Tests.Toy.{
  toy_blake2s, toy_hash, guards, tree_root-guards, guards-StoreFits, guards-IsLinked,
}
use zksync_os_zisk.Tests.Merkle.{upper_key, two_writes, two_writes-IsBatchTreeUpdate}

instance unfoldable pub ordered_specs : SpecCrate
ordered_specs = record {
  is_enabled_in = λ a b. leb (tier a) (tier b);
  is_enabled_in_lem = λ a b. refl;
}

abbrev pub block : BlockInput
block = record {
  number = 8;
  timestamp = 1700000000;
  base_fee = 250;
  gas_limit = 30000000;
  coinbase = 0;
  prev_randao = 1;
  transactions = [];
  account_preimages = [];
  block_hashes = [];
  storage_proofs = [];
  block_header_hash = 0;
  l2_to_l1_logs = [];
  expected_tree_root = 9;
}

abbrev pub batch : BatchInput
batch = record {
  version = 5;
  chain_id = 270;
  spec_id = 3;
  protocol_version_minor = 33;
  blocks = block ∷ record block { number = 9; timestamp = 1700000002; expected_tree_root = 0 } ∷ [];
  batch_meta = record {
    tree_root_before = 9;
    leaf_count_before = 2;
    block_number_before = 7;
    last_block_timestamp_before = 1600000000;
    block_hashes_blake_before = 3;
    previous_block_hashes = [];
    upgrade_tx_hash = 0;
    da_commitment_scheme = 2;
    pubdata = [];
    multichain_root = 0;
    sl_chain_id = 1;
    blob_versioned_hashes = [];
    tree_update = none;
    account_preimages_after = [];
    fri_proof_verification_enabled = false;
    max_tx_gas_limit = 16777216;
    pubdata_content = 0;
    l1_tx_filtering_enabled = false;
    large_contracts_enabled = false;
    interop_proofs = none;
  };
  bytecodes = [];
}

batch_passes : resolve_spec_and_validate batch ≡ ok atlas_v4
unfolding resolve_spec_and_validate ordered_specs
batch_passes = refl

resolve_spec_and_validate_lem_example : IsValidBatch batch atlas_v4
resolve_spec_and_validate_lem_example = resolve_spec_and_validate_lem batch atlas_v4 batch_passes

-- The two writes of the execution, in the other order.
abbrev pub two_entries : Entries
two_entries = (upper_key, 9) ∷ (100, 7) ∷ []

abbrev pub updated : BatchMeta
updated = record batch.batch_meta {
  tree_root_before = 804;
  leaf_count_before = 2;
  tree_update = some two_writes;
}

two_entries_pass : verify_tree_update updated two_entries ≡ ok (489, 3)
unfolding verify_tree_update apply empty_subtree_hash hash_leaf toy_blake2s toy_hash be_bytes
    le_bytes
two_entries_pass = refl

verify_tree_update_refines_example : UnlessCollision (TreeHashed guards) (
    (s' : Store) × (489 ≡ tree_root s')
    × (3 ≡ length s')
    × IsLinked s'
    × ((j : B256) → value_of s' j ≡ or_else (lookup j two_entries) (value_of guards j)))
verify_tree_update_refines_example =
    verify_tree_update_refines updated two_entries guards 489 3
      (two_writes-IsBatchTreeUpdate, omega arith) guards-StoreFits guards-IsLinked tree_root-guards
      refl two_entries_pass
