-- ===== src/Tests/Seal.antt =====
-- The check of an executed block against its sealed header hash, with toy hashes.
use zksync_os_zisk.BlockHeader.Binding.{header_preimage}
use zksync_os_zisk.Prelude.{◌⊎◌, ◌≡◌, ◌≢◌, refl, some, [], ◌∷◌, true, ok, err, arith}
use zksync_os_zisk.Prelude.Bytes.{be_bytes}
use zksync_os_zisk.Merkle.Hash.{Only, UnlessCollision}
use zksync_os_zisk.Types.{BlockInput}
use zksync_os_zisk.Commitment.Hash.{UnlessKeccakCollision}
use zksync_os_zisk.BlockRoots.{BlockTreeHashed, block_tx_tree_root}
use zksync_os_zisk.FixedHeight.{fold_leaves, empty_loop, level_loop, pair_loop}
use zksync_os_zisk.BlockHeader.{HeaderFields, compute_block_header_hash}
use zksync_os_zisk.Executor.{atlas_v4}
use zksync_os_zisk.Executor.Commit.{BlockResult}
use zksync_os_zisk.Executor.Seal.{
  BlockExecution, missing_sealed_hash, total_from, total_gas_used, header_of, seal_block,
}
use zksync_os_zisk.Executor.Seal.Sound.{seal_block_sound}
use zksync_os_zisk.Tests.Toy.{toy_blake2s, toy_keccak, toy_hash}
use zksync_os_zisk.Tests.Executor.{ordered_specs, block}

abbrev execution : BlockExecution
execution = record {
  tx_results = record { success = true; gas_used = 21000; output = [] } ∷ [];
  tx_hashes = 17 ∷ [];
  receipt_leaves = 5 ∷ [];
  l2_to_l1_logs = [];
}

tx_root : block_tx_tree_root (17 ∷ []) ≡ some 450
unfolding block_tx_tree_root fold_leaves level_loop pair_loop empty_loop toy_blake2s toy_hash
    be_bytes
tx_root = refl

receipts_root : block_tx_tree_root (5 ∷ []) ≡ some 438
unfolding block_tx_tree_root fold_leaves level_loop pair_loop empty_loop toy_blake2s toy_hash
    be_bytes
receipts_root = refl

abbrev header : HeaderFields
header = header_of block 7 (450, 438) 21000

abbrev sealed : BlockInput
sealed = record block { block_header_hash = compute_block_header_hash header }

abbrev result : BlockResult
result = record {
  block_number = 8;
  computed_block_header_hash = compute_block_header_hash header;
  tx_results = execution.tx_results;
  l2_to_l1_logs = [];
}

sealed_run : seal_block atlas_v4 sealed 7 execution ≡ ok result
unfolding seal_block total_from ordered_specs block_tx_tree_root fold_leaves level_loop pair_loop
    empty_loop compute_block_header_hash toy_blake2s toy_keccak toy_hash
sealed_run = refl

-- A block of AtlasV4 may not leave the sealed hash out.
unsealed_test : seal_block atlas_v4 block 7 execution ≡ err missing_sealed_hash
unfolding seal_block total_from ordered_specs block_tx_tree_root fold_leaves level_loop pair_loop
    empty_loop compute_block_header_hash toy_blake2s toy_keccak toy_hash
unsealed_test = refl

seal_block_sound_example :
    (sealed.block_header_hash ≢ 0)
    × UnlessKeccakCollision (Only (header_preimage header)) (
        (header ≡ header_of sealed 7 (450, 438) (total_gas_used execution.tx_results))
        × UnlessCollision
            (λ m. BlockTreeHashed (17 ∷ []) m ⊎ BlockTreeHashed (5 ∷ []) m)
            ((execution.tx_hashes ≡ 17 ∷ []) × (execution.receipt_leaves ≡ 5 ∷ [])))
seal_block_sound_example =
    seal_block_sound atlas_v4 sealed 7 execution result header (17 ∷ []) (5 ∷ []) (omega arith)
      (omega arith, omega arith, omega arith, omega arith, omega arith, omega arith) (omega arith)
      (omega arith, tt) (omega arith, tt)
      (
        omega arith,
        omega arith,
        omega arith,
        omega arith,
        omega arith,
        omega arith,
        omega arith,
        omega arith,
        omega arith,
        omega arith,
      )
      (omega arith, tt) (omega arith, tt) refl refl tx_root receipts_root refl sealed_run
