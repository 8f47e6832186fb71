-- ===== src/Executor/Seal.antt =====
-- The header of an executed block and its check against the sealed hash: `execute_block_proven` of
-- lib/src/executor/evm.rs, after the block has run. What the run produced is an argument.
pub mod Sound
use zksync_os_zisk.Prelude.{
  ℕ, ◌+◌, ◌%◌, ◌^◌, Bool, not, ◌||◌, List, [], ◌∷◌, ◌==◌, if◌then◌else◌, Result, ok, err, ◌>>=◌,
  ◌>>◌, guard, from_option,
}
use zksync_os_zisk.Merkle.Hash.{B256, Blake2s}
use zksync_os_zisk.Types.{BlockInput, L2ToL1LogEntry}
use zksync_os_zisk.Commitment.Hash.{Keccak}
use zksync_os_zisk.BlockRoots.{block_tx_tree_root}
use zksync_os_zisk.BlockHeader.{
  HeaderFields, compute_block_header_hash, transactions_rolling_hash, keccak_empty,
}
use zksync_os_zisk.Executor.{ZkSpecId, SpecCrate, atlas_v3, atlas_v4}
use zksync_os_zisk.Executor.Commit.{TxOutput, BlockResult}

-- What one run of a block produced, less the state effects, which the header does not commit.
pub record BlockExecution : Type 0 where
  pub tx_results : List TxOutput
  pub tx_hashes : List B256
  pub receipt_leaves : List B256
  pub l2_to_l1_logs : List L2ToL1LogEntry

pub data SealPanic : Type 0 where
  too_many_leaves missing_sealed_hash wrong_sealed_hash : SealPanic

-- A sum of `u64` values.
unfoldable pub total_from : ℕ → List TxOutput → ℕ
total_from total [] = total
total_from total (t ∷ results) = total_from ((total + t.gas_used) % 2 ^ 64) results

abbrev pub total_gas_used : List TxOutput → ℕ
total_gas_used results = total_from 0 results

module _ ⦃H : Blake2s⦄ ⦃K : Keccak⦄ ⦃S : SpecCrate⦄ where
  -- The transactions root and the receipts root.
  unfoldable pub header_roots : ZkSpecId → BlockExecution → Result SealPanic (B256 × B256)
  header_roots spec_id exec =
      if S.is_enabled_in atlas_v4 spec_id
      then (do
        tx_root ← from_option (block_tx_tree_root exec.tx_hashes) too_many_leaves
        receipts_root ← from_option (block_tx_tree_root exec.receipt_leaves) too_many_leaves
        ok (tx_root, receipts_root))
      else ok (
        transactions_rolling_hash exec.tx_hashes
            (if S.is_enabled_in atlas_v3 spec_id then keccak_empty else 0),
        0,
      )

  abbrev pub header_of : BlockInput → B256 → B256 × B256 → ℕ → HeaderFields
  header_of block parent_hash roots gas_used = record {
    parent_hash = parent_hash;
    beneficiary = block.coinbase;
    transactions_root = roots.0;
    receipts_root = roots.1;
    number = block.number;
    gas_limit = block.gas_limit;
    gas_used = gas_used;
    timestamp = block.timestamp;
    mix_hash = block.prev_randao;
    base_fee_per_gas = block.base_fee;
  }

  unfoldable pub check_sealed : ZkSpecId → BlockInput → B256 → Result SealPanic (Unit {0})
  check_sealed spec_id block computed =
      guard (not (S.is_enabled_in atlas_v4 spec_id) || not (block.block_header_hash == 0))
        missing_sealed_hash
      >> guard (block.block_header_hash == 0 || computed == block.block_header_hash)
          wrong_sealed_hash

  unfoldable pub seal_block :
      ZkSpecId → BlockInput → B256 → BlockExecution → Result SealPanic BlockResult
  unfolding header_roots check_sealed
  seal_block spec_id block parent_hash exec = header_roots spec_id exec >>= λ roots.
      check_sealed spec_id block (
        compute_block_header_hash
          (header_of block parent_hash roots (total_gas_used exec.tx_results)))
      >> ok (record {
        block_number = block.number;
        computed_block_header_hash =
            compute_block_header_hash
              (header_of block parent_hash roots (total_gas_used exec.tx_results));
        tx_results = exec.tx_results;
        l2_to_l1_logs = exec.l2_to_l1_logs;
      })
