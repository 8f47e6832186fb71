-- ===== src/Wire/V3/Normalize.antt =====
-- Wire version 3 read as the current schema: the `From` instances of lib/src/wire/v3.rs into the
-- current types.
use mathlib.Core.Option
use zksync_os_zisk.Prelude.{false, none, map}
use zksync_os_zisk.Wire.V3
use zksync_os_zisk.Merkle.Proof.{
  SlotProofEntry, NeighborProofEntry, StorageProof, existing, non_existing,
}
use zksync_os_zisk.Merkle.Tree.{TreeLeaf}
use zksync_os_zisk.Merkle.Update.{WriteOp, update, insert, BatchTreeUpdate}
use zksync_os_zisk.Types.{
  InteropSlotProofs, TxAuth, l1, l2, upgrade, system, TxInput, L2ToL1LogEntry, BlockInput,
  BatchMeta, BatchInput, pubdata_content_full,
}

unfoldable pub slot_proof_entry : V3.SlotProofEntry → SlotProofEntry
slot_proof_entry x = record {
  index = x.index;
  value = x.value;
  next_index = x.next_index;
  siblings = x.siblings;
}

unfoldable pub neighbor_proof_entry : V3.NeighborProofEntry → NeighborProofEntry
unfolding slot_proof_entry
neighbor_proof_entry x = record { entry = slot_proof_entry x.entry; leaf_key = x.leaf_key }

unfoldable pub storage_proof : V3.StorageProof → StorageProof
unfolding slot_proof_entry neighbor_proof_entry
storage_proof (V3.existing entry) = existing (slot_proof_entry entry)
storage_proof (V3.non_existing left right) =
    non_existing (neighbor_proof_entry left) (neighbor_proof_entry right)

unfoldable pub tree_leaf : V3.TreeLeaf → TreeLeaf
tree_leaf x = record { key = x.key; value = x.value; next_index = x.next_index }

unfoldable pub write_op : V3.WriteOp → WriteOp
write_op (V3.update index) = update index
write_op (V3.insert prev_index) = insert prev_index

unfoldable pub batch_tree_update : V3.BatchTreeUpdate → BatchTreeUpdate
unfolding write_op tree_leaf
batch_tree_update x = record {
  operations = map write_op x.operations;
  entries = x.entries;
  sorted_leaves = map (λ (index, leaf). (index, tree_leaf leaf)) x.sorted_leaves;
  intermediate_hashes = x.intermediate_hashes;
  leaf_count_before = x.leaf_count_before;
}

unfoldable pub interop_slot_proofs : V3.InteropSlotProofs → InteropSlotProofs
unfolding storage_proof
interop_slot_proofs x = record {
  sl_chain_id = storage_proof x.sl_chain_id;
  multichain_height = storage_proof x.multichain_height;
  multichain_root = storage_proof x.multichain_root;
  commitment_tree = none;
}

unfoldable pub tx_auth : V3.TxAuth → TxAuth
tx_auth (V3.l1 tx_hash abi_encoded) = l1 tx_hash abi_encoded
tx_auth (V3.upgrade tx_hash abi_encoded) = upgrade tx_hash abi_encoded
tx_auth (V3.l2 signed_bytes) = l2 signed_bytes
tx_auth (V3.system tx_hash encoded_2718) = system tx_hash encoded_2718

unfoldable pub tx_input : V3.TxInput → TxInput
unfolding tx_auth
tx_input x = record {
  chain_id = x.chain_id;
  gas_used_override = x.gas_used_override;
  force_fail = x.force_fail;
  auth = tx_auth x.auth;
}

unfoldable pub l2_to_l1_log_entry : V3.L2ToL1LogEntry → L2ToL1LogEntry
l2_to_l1_log_entry x = record {
  l2_shard_id = x.l2_shard_id;
  is_service = x.is_service;
  tx_number_in_block = x.tx_number_in_block;
  sender = x.sender;
  key = x.key;
  value = x.value;
}

unfoldable pub block_input : V3.BlockInput → BlockInput
unfolding tx_input storage_proof l2_to_l1_log_entry
block_input x = record {
  number = x.number;
  timestamp = x.timestamp;
  base_fee = x.base_fee;
  gas_limit = x.gas_limit;
  coinbase = x.coinbase;
  prev_randao = x.prev_randao;
  transactions = map tx_input x.transactions;
  account_preimages = x.account_preimages;
  block_hashes = x.block_hashes;
  storage_proofs = map (λ (key, proof). (key, storage_proof proof)) x.storage_proofs;
  block_header_hash = x.block_header_hash;
  l2_to_l1_logs = map l2_to_l1_log_entry x.l2_to_l1_logs;
  expected_tree_root = x.expected_tree_root;
}

unfoldable pub batch_meta : V3.BatchMeta → BatchMeta
unfolding batch_tree_update interop_slot_proofs
batch_meta x = record {
  tree_root_before = x.tree_root_before;
  leaf_count_before = x.leaf_count_before;
  block_number_before = x.block_number_before;
  last_block_timestamp_before = x.last_block_timestamp_before;
  block_hashes_blake_before = x.block_hashes_blake_before;
  previous_block_hashes = x.previous_block_hashes;
  upgrade_tx_hash = x.upgrade_tx_hash;
  da_commitment_scheme = x.da_commitment_scheme;
  pubdata = x.pubdata;
  multichain_root = x.multichain_root;
  sl_chain_id = x.sl_chain_id;
  blob_versioned_hashes = x.blob_versioned_hashes;
  tree_update = Option.map batch_tree_update x.tree_update;
  account_preimages_after = x.account_preimages_after;
  fri_proof_verification_enabled = x.fri_proof_verification_enabled;
  max_tx_gas_limit = x.max_tx_gas_limit;
  pubdata_content = pubdata_content_full;
  l1_tx_filtering_enabled = false;
  large_contracts_enabled = false;
  interop_proofs = Option.map interop_slot_proofs x.interop_proofs;
}

unfoldable pub batch_input : V3.BatchInput → BatchInput
unfolding block_input batch_meta
batch_input x = record {
  version = x.version;
  chain_id = x.chain_id;
  spec_id = x.spec_id;
  protocol_version_minor = x.protocol_version_minor;
  blocks = map block_input x.blocks;
  batch_meta = batch_meta x.batch_meta;
  bytecodes = x.bytecodes;
}
