-- ===== src/Executor/Commit.antt =====
-- From the execution of a batch to its commitment: `run_execution_and_commit` of
-- lib/src/executor/mod.rs. What drives the REVM crate and the decoding of imported interop roots are
-- parameters.
pub mod Summarize
pub mod Binding
pub mod Transition
use zksync_os_zisk.Prelude.{
  ℕ, zero, suc, ◌+◌, ◌%◌, ◌^◌, Bool, true, false, not, ◌&&◌, ◌||◌, Option, none, some, List, [],
  ◌∷◌, ◌++◌, map, concat, ◌==◌, leb, if◌then◌else◌, Result, ok, err, ◌>>=◌, ◌>>◌, guard,
  from_option,
}
use zksync_os_zisk.Merkle.Hash.{B256, Blake2s}
use zksync_os_zisk.Types.{
  Bytes, BatchInput, BatchMeta, BlockInput, TxInput, TxAuth, l1, upgrade, l2, system,
  L2ToL1LogEntry, encode, InteropSlotProofs, pubdata_content_logs_only,
}
use zksync_os_zisk.Commitment.Hash.{Keccak}
use zksync_os_zisk.Commitment
use zksync_os_zisk.Commitment.{
  BatchOutputLayout, BatchOutputFields, ChainConfigLayout, ChainConfig, ChainBatchRootLayout,
  two_preimage_keccak, height_three_merkle, v30, v31, of_batch, state_commitment_hash,
  l2_to_l1_logs_root, chain_batch_root, batch_output_hash_native, chain_config_hash,
  priority_ops_rolling_hash, logs_only_pubdata, da_commitment_calldata, da_commitment_blobs,
  batch_public_input_hash,
}
use zksync_os_zisk.Executor.{ZkSpecId, SpecCrate, atlas_v1, atlas_v2, atlas_v3, atlas_v4, atlas_v5}
use zksync_os_zisk.Executor.TreeUpdate.{Entries, TreeUpdatePanic, verify_tree_update}
use zksync_os_zisk.Executor.Ring.{
  Hashes, RingPanic, verify_intra_batch_hashes, verify_block_hashes_blake_before,
  reconstruct_block_hashes_blake_after,
}
use zksync_os_zisk.Executor.Interop.{
  InteropPanic, InteropCommitmentTreeRoots, DerivedInteropValues, derive_multichain_root,
  derive_sl_chain_id, derive_interop_commitment_tree_roots,
}

pub record TxOutput : Type 0 where
  pub success : Bool
  pub gas_used : ℕ
  pub output : Bytes

pub record BlockResult : Type 0 where
  pub block_number : ℕ
  pub computed_block_header_hash : B256
  pub tx_results : List TxOutput
  pub l2_to_l1_logs : List L2ToL1LogEntry

-- The database and the EVM behind it. `seed` starts from the authenticated ring and the number of the
-- first block; `revm_writes` is the write map of the batch.
pub record Evm (S : Type 0) : Type 0 where
  pub seed : List B256 → ℕ → S
  pub execute_block : BlockInput → S → BlockResult × S
  pub insert_block_hash : ℕ → B256 → S → S
  pub revm_writes : S → Entries

pub data CommitPanic : Type 0 where
  ring_panic : RingPanic → CommitPanic
  tree_panic : TreeUpdatePanic → CommitPanic
  interop_panic : InteropPanic → CommitPanic
  no_blocks bad_import upgrade_hash_mismatch two_upgrades upgrade_presence : CommitPanic
  missing_interop_proofs missing_tree_proofs too_many_logs unsupported_da_scheme : CommitPanic

abbrev pub lift {ℓ} :
    {E : Type 0} {A : Type ℓ} → (E → CommitPanic) → Result E A → Result CommitPanic A
lift f (ok a) = ok a
lift f (err e) = err (f e)

-- A folded import of interop roots: whether the import carries a timestamp, the transaction hash, the
-- encoded transaction, and the hash so far.
pub record Imports : Type 0 where
  pub fold_system_tx_interop_roots : Bool → B256 → Bytes → B256 → Option B256

pub record TxTotals : Type 0 where
  pub l1_tx_hashes : List B256
  pub num_l1_txs : ℕ
  pub num_l2_txs : ℕ
  pub num_upgrade_txs : ℕ
  pub interop_roots_rolling_hash : B256

abbrev pub no_txs : TxTotals
no_txs = record {
  l1_tx_hashes = [];
  num_l1_txs = 0;
  num_l2_txs = 0;
  num_upgrade_txs = 0;
  interop_roots_rolling_hash = 0;
}

-- `a == b` on booleans.
abbrev pub same_bool : Bool → Bool → Bool
same_bool true b = b
same_bool false b = not b

abbrev pub succ_u64 : ℕ → ℕ
succ_u64 n = (n + 1) % 2 ^ 64

module _ ⦃I : Imports⦄ where
  unfoldable pub count_tx : BatchMeta → Bool → TxAuth → TxTotals → Result CommitPanic TxTotals
  count_tx meta with_timestamp (l1 tx_hash abi) t = ok (record t {
    l1_tx_hashes = t.l1_tx_hashes ++ tx_hash ∷ [];
    num_l1_txs = succ_u64 t.num_l1_txs;
  })
  count_tx meta with_timestamp (upgrade tx_hash abi) t =
      guard (tx_hash == meta.upgrade_tx_hash) upgrade_hash_mismatch
      >> ok (record t { num_upgrade_txs = succ_u64 t.num_upgrade_txs })
  count_tx meta with_timestamp (l2 signed) t = ok (record t { num_l2_txs = succ_u64 t.num_l2_txs })
  count_tx meta with_timestamp (system tx_hash encoded) t =
      from_option
        (I.fold_system_tx_interop_roots with_timestamp tx_hash encoded t.interop_roots_rolling_hash)
        bad_import
      >>= λ hash.
          ok (record t { num_l2_txs = succ_u64 t.num_l2_txs; interop_roots_rolling_hash = hash })

  unfoldable pub count_txs :
      BatchMeta → Bool → List TxInput → TxTotals → Result CommitPanic TxTotals
  unfolding count_tx
  count_txs meta with_timestamp [] t = ok t
  count_txs meta with_timestamp (tx ∷ txs) t =
      count_tx meta with_timestamp tx.auth t >>= λ t'. count_txs meta with_timestamp txs t'

  unfoldable pub count_blocks :
      BatchMeta → Bool → List BlockInput → TxTotals → Result CommitPanic TxTotals
  unfolding count_txs
  count_blocks meta with_timestamp [] t = ok t
  count_blocks meta with_timestamp (b ∷ blocks) t =
      count_txs meta with_timestamp b.transactions t >>= λ t'.
      count_blocks meta with_timestamp blocks t'

-- The arguments of `state_commitment_hash`.
pub record StateFields : Type 0 where
  pub tree_root : B256
  pub leaf_count : ℕ
  pub block_number : ℕ
  pub block_hashes : B256
  pub last_block_timestamp : ℕ

-- All that the commitment is computed from.
pub record Summary : Type 0 where
  pub before : StateFields
  pub after : StateFields
  pub layout : BatchOutputLayout
  pub output : BatchOutputFields
  pub config : Option (ChainConfigLayout × ChainConfig)

abbrev pub batch_output_layout : ZkSpecId → BatchOutputLayout
batch_output_layout atlas_v1 = v30
batch_output_layout atlas_v2 = v30
batch_output_layout atlas_v3 = v31
batch_output_layout atlas_v4 = Commitment.BatchOutputLayout.atlas_v4
batch_output_layout atlas_v5 = Commitment.BatchOutputLayout.atlas_v4

abbrev pub chain_config_of : ZkSpecId → BatchInput → Option (ChainConfigLayout × ChainConfig)
chain_config_of atlas_v1 input = none
chain_config_of atlas_v2 input = none
chain_config_of atlas_v3 input = none
chain_config_of atlas_v4 input = some (Commitment.ChainConfigLayout.atlas_v4, of_batch input)
chain_config_of atlas_v5 input = some (Commitment.ChainConfigLayout.atlas_v5, of_batch input)

-- `input.blocks.last()`, after the first block.
abbrev pub last_of : BlockInput → List BlockInput → BlockInput
last_of b [] = b
last_of b (c ∷ rest) = last_of c rest

abbrev pub last_hash_of : List BlockResult → B256 → B256
last_hash_of [] found = found
last_hash_of (r ∷ rest) found = last_hash_of rest r.computed_block_header_hash

-- The results, the computed hashes, and the database after the blocks.
pub record Ran (S : Type 0) : Type 0 where
  pub results : List BlockResult
  pub computed : Hashes
  pub final : S

module _ {S : Type 0} (E : Evm S) where
  unfoldable pub execute_blocks : List BlockInput → S → Hashes → Result CommitPanic (Ran S)
  unfolding verify_intra_batch_hashes
  execute_blocks [] s computed = ok (record { results = []; computed = computed; final = s })
  execute_blocks (b ∷ blocks) s computed = do
    lift ring_panic (verify_intra_batch_hashes b computed)
    let executed = E.execute_block b s
    let hash = executed.0.computed_block_header_hash
    ran ←
        execute_blocks blocks (E.insert_block_hash b.number hash executed.1)
          ((b.number, hash) ∷ computed)
    ok (record ran { results = executed.0 ∷ ran.results })
