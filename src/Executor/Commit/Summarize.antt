-- ===== src/Executor/Commit/Summarize.antt =====
-- All that the commitment of a batch is computed from, and the commitment: the part of
-- `run_execution_and_commit` of lib/src/executor/mod.rs around the execution of the blocks.
use zksync_os_zisk.Prelude.{
  not, ◌&&◌, ◌||◌, Option, none, some, List, [], ◌∷◌, map, concat, ◌==◌, leb, if◌then◌else◌, Result,
  ok, err, ◌>>=◌, ◌>>◌, guard, from_option,
}
use zksync_os_zisk.Merkle.Hash.{B256, Blake2s}
use zksync_os_zisk.Types.{
  Bytes, BatchInput, BatchMeta, BlockInput, encode, InteropSlotProofs, pubdata_content_logs_only,
}
use zksync_os_zisk.Commitment.Hash.{Keccak}
use zksync_os_zisk.Commitment.{
  BatchOutputFields, ChainConfigLayout, ChainConfig, ChainBatchRootLayout, two_preimage_keccak,
  height_three_merkle, state_commitment_hash, l2_to_l1_logs_root, chain_batch_root,
  batch_output_hash_native, chain_config_hash, priority_ops_rolling_hash, logs_only_pubdata,
  da_commitment_calldata, da_commitment_blobs, batch_public_input_hash,
}
use zksync_os_zisk.Executor.{ZkSpecId, SpecCrate, atlas_v3, atlas_v4}
use zksync_os_zisk.Executor.TreeUpdate.{verify_tree_update}
use zksync_os_zisk.Executor.Ring.{
  verify_block_hashes_blake_before, reconstruct_block_hashes_blake_after,
}
use zksync_os_zisk.Executor.Interop.{
  InteropCommitmentTreeRoots, DerivedInteropValues, derive_multichain_root, derive_sl_chain_id,
  derive_interop_commitment_tree_roots,
}
use zksync_os_zisk.Executor.Commit.{
  Evm, CommitPanic, lift, Imports, TxTotals, no_txs, same_bool, count_blocks, StateFields, Summary,
  batch_output_layout, chain_config_of, last_of, last_hash_of, Ran, execute_blocks, no_blocks,
  two_upgrades, upgrade_presence, missing_interop_proofs, missing_tree_proofs, too_many_logs,
  unsupported_da_scheme, ring_panic, tree_panic, interop_panic,
}

module _ ⦃H : Blake2s⦄ ⦃K : Keccak⦄ where
  unfoldable pub state_hash : StateFields → B256
  unfolding state_commitment_hash
  state_hash s =
      state_commitment_hash s.tree_root s.leaf_count s.block_number s.block_hashes
        s.last_block_timestamp

  unfoldable pub config_hash : Option (ChainConfigLayout × ChainConfig) → Option B256
  unfolding chain_config_hash
  config_hash none = none
  config_hash (some (layout, config)) = some (chain_config_hash layout config)

  -- The batch commitment over a summary.
  unfoldable pub commit : Summary → B256
  unfolding state_hash config_hash batch_public_input_hash batch_output_hash_native
  commit m =
      batch_public_input_hash (state_hash m.before) (state_hash m.after) (config_hash m.config)
        (batch_output_hash_native m.layout m.output)

module _ ⦃S : SpecCrate⦄ ⦃H : Blake2s⦄ ⦃K : Keccak⦄ where
  unfoldable pub derive_trees :
      InteropSlotProofs
      → ZkSpecId
      → B256
      → B256
      → Result CommitPanic (Option InteropCommitmentTreeRoots)
  unfolding derive_interop_commitment_tree_roots
  derive_trees proofs spec_id root_before root_after =
      if S.is_enabled_in atlas_v4 spec_id
      then (do
        trees ← from_option proofs.commitment_tree missing_tree_proofs
        roots ←
            lift interop_panic (derive_interop_commitment_tree_roots trees root_before root_after)
        ok (some roots))
      else ok none

  unfoldable pub derive_interop :
      BatchMeta → ZkSpecId → B256 → Result CommitPanic DerivedInteropValues
  unfolding derive_multichain_root derive_sl_chain_id derive_trees
  derive_interop meta spec_id tree_root_after =
      if S.is_enabled_in atlas_v3 spec_id
      then (do
        proofs ← from_option meta.interop_proofs missing_interop_proofs
        multichain ← lift interop_panic (derive_multichain_root proofs tree_root_after)
        sl ← lift interop_panic (derive_sl_chain_id proofs.sl_chain_id tree_root_after)
        roots ← derive_trees proofs spec_id meta.tree_root_before tree_root_after
        ok (record {
          multichain_root = multichain;
          sl_chain_id = sl;
          commitment_tree_roots = roots;
        }))
      else ok (record {
        multichain_root = 0;
        sl_chain_id = meta.sl_chain_id;
        commitment_tree_roots = none;
      })

  -- `unwrap_or` of two zero roots.
  abbrev pub or_zeros : Option InteropCommitmentTreeRoots → InteropCommitmentTreeRoots
  or_zeros none = record { begin = 0; end = 0 }
  or_zeros (some roots) = roots

  abbrev pub root_layout : ZkSpecId → ChainBatchRootLayout
  root_layout spec_id =
      if S.is_enabled_in atlas_v4 spec_id then height_three_merkle else two_preimage_keccak

  unfoldable pub committed_pubdata : BatchMeta → ZkSpecId → List (List Bytes) → Bytes
  unfolding logs_only_pubdata
  committed_pubdata meta spec_id logs_by_block =
      if S.is_enabled_in atlas_v4 spec_id && meta.pubdata_content == pubdata_content_logs_only
      then logs_only_pubdata logs_by_block
      else meta.pubdata

  unfoldable pub da_commitment_of : BatchMeta → Bytes → Result CommitPanic B256
  unfolding da_commitment_calldata da_commitment_blobs
  da_commitment_of meta pubdata =
      let scheme = meta.da_commitment_scheme in
      if scheme == 0 || scheme == 1
      then ok 0
      else (if scheme == 2 || scheme == 3
          then ok (da_commitment_calldata pubdata)
          else (if scheme == 4
              then ok (da_commitment_blobs meta.blob_versioned_hashes)
              else err unsupported_da_scheme))

  -- The batch output, once the transactions are counted and the interop values derived.
  unfoldable pub output_of :
      BatchInput
      → ZkSpecId
      → BlockInput
      → BlockInput
      → TxTotals
      → DerivedInteropValues
      → List (List Bytes)
      → Result CommitPanic BatchOutputFields
  unfolding l2_to_l1_logs_root chain_batch_root committed_pubdata da_commitment_of
      priority_ops_rolling_hash
  output_of input spec_id first last t derived logs_by_block = do
    logs_root ← from_option (l2_to_l1_logs_root (concat logs_by_block)) too_many_logs
    let roots = or_zeros derived.commitment_tree_roots
    batch_root ←
        from_option
          (chain_batch_root (root_layout spec_id) logs_root derived.multichain_root roots.begin
            roots.end)
          too_many_logs
    da ←
        da_commitment_of input.batch_meta (committed_pubdata input.batch_meta spec_id logs_by_block)
    ok (record {
      chain_id = input.chain_id;
      first_block_timestamp = first.timestamp;
      last_block_timestamp = last.timestamp;
      da_commitment_scheme = input.batch_meta.da_commitment_scheme;
      da_commitment = da;
      number_of_layer1_txs = t.num_l1_txs;
      number_of_layer2_txs = t.num_l2_txs;
      priority_operations_hash = priority_ops_rolling_hash t.l1_tx_hashes;
      l2_to_l1_logs_root_hash = batch_root;
      upgrade_tx_hash = input.batch_meta.upgrade_tx_hash;
      interop_roots_rolling_hash = t.interop_roots_rolling_hash;
      settlement_layer_chain_id = derived.sl_chain_id;
    })

  -- Both directions of the check on `upgrade_tx_hash`.
  unfoldable pub check_upgrade : BatchMeta → TxTotals → Result CommitPanic (Unit {0})
  check_upgrade meta t = do
    guard (leb t.num_upgrade_txs 1) two_upgrades
    guard (same_bool (t.num_upgrade_txs == 1) (not (meta.upgrade_tx_hash == 0))) upgrade_presence
    ok tt

  module _ ⦃I : Imports⦄ {D : Type 0} (E : Evm D) where
    -- The state after the batch: the tree with the writes, and the ring after the last block.
    unfoldable pub state_after_of :
        BatchInput
        → BlockInput
        → List BlockInput
        → List B256
        → Ran D
        → Result CommitPanic StateFields
    unfolding verify_tree_update reconstruct_block_hashes_blake_after
    state_after_of input first rest ring ran = do
      updated ← lift tree_panic (verify_tree_update input.batch_meta (E.revm_writes ran.final))
      let last = last_of first rest
      hashes ← lift ring_panic (
          reconstruct_block_hashes_blake_after first.number last.number ring ran.computed
            (last_hash_of ran.results 0))
      ok (record {
        tree_root = updated.0;
        leaf_count = updated.1;
        block_number = last.number;
        block_hashes = hashes;
        last_block_timestamp = last.timestamp;
      })

    -- The run up to the hashes, for a batch whose blocks are `first` and `rest`.
    unfoldable pub summarize_blocks :
        BatchInput → ZkSpecId → BlockInput → List BlockInput → Result CommitPanic Summary
    unfolding verify_block_hashes_blake_before execute_blocks state_after_of count_blocks
        check_upgrade derive_interop output_of encode
    summarize_blocks input spec_id first rest = do
      ring ← lift ring_panic (verify_block_hashes_blake_before input.batch_meta first)
      ran ← execute_blocks E (first ∷ rest) (E.seed ring first.number) []
      after ← state_after_of input first rest ring ran
      t ← count_blocks input.batch_meta (S.is_enabled_in atlas_v4 spec_id) (first ∷ rest) no_txs
      check_upgrade input.batch_meta t
      derived ← derive_interop input.batch_meta spec_id after.tree_root
      output ←
          output_of input spec_id first (last_of first rest) t derived
            (map (λ r. map (λ log. encode log) r.l2_to_l1_logs) ran.results)
      ok (record {
        before = record {
          tree_root = input.batch_meta.tree_root_before;
          leaf_count = input.batch_meta.leaf_count_before;
          block_number = input.batch_meta.block_number_before;
          block_hashes = input.batch_meta.block_hashes_blake_before;
          last_block_timestamp = input.batch_meta.last_block_timestamp_before;
        };
        after = after;
        layout = batch_output_layout spec_id;
        output = output;
        config = chain_config_of spec_id input;
      })

    unfoldable pub summarize_list :
        BatchInput → ZkSpecId → List BlockInput → Result CommitPanic Summary
    unfolding summarize_blocks
    summarize_list input spec_id [] = err no_blocks
    summarize_list input spec_id (first ∷ rest) = summarize_blocks input spec_id first rest

    unfoldable pub summarize : BatchInput → ZkSpecId → Result CommitPanic Summary
    unfolding summarize_list
    summarize input spec_id = summarize_list input spec_id input.blocks

  unfoldable pub run_execution_and_commit :
      ⦃I : Imports⦄ {D : Type 0} → Evm D → BatchInput → ZkSpecId → Result CommitPanic B256
  unfolding summarize commit
  run_execution_and_commit E input spec_id = summarize E input spec_id >>= λ m. ok (commit m)
