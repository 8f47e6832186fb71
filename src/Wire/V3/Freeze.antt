-- ===== src/Wire/V3/Freeze.antt =====
-- The current schema written as wire version 3: the `From` and `TryFrom` instances of
-- lib/src/wire/v3.rs out of the current types.
use mathlib.Core.Option
use zksync_os_zisk.Prelude.{
  Option, none, some, map, ◌==◌, ltb, not, Result, ok, err, ◌>>=◌, ◌>>◌, guard,
}
use zksync_os_zisk.Wire.V3
use zksync_os_zisk.Wire.V3.{
  ConversionError, unsupported_spec, unsupported_pubdata_content, interop_commitment_tree,
}
use zksync_os_zisk.Merkle.Proof.{
  SlotProofEntry, NeighborProofEntry, StorageProof, existing, non_existing,
}
use zksync_os_zisk.Merkle.Tree.{TreeLeaf}
use zksync_os_zisk.Merkle.Update.{WriteOp, update, insert, BatchTreeUpdate}
use zksync_os_zisk.Types.{
  InteropSlotProofs, TxAuth, l1, l2, upgrade, system, TxInput, L2ToL1LogEntry, BlockInput,
  BatchMeta, BatchInput, pubdata_content_full,
}

unfoldable pub slot_proof_entry : SlotProofEntry → V3.SlotProofEntry
slot_proof_entry x = record {
  index = x.index;
  value = x.value;
  next_index = x.next_index;
  siblings = x.siblings;
}

unfoldable pub neighbor_proof_entry : NeighborProofEntry → V3.NeighborProofEntry
unfolding slot_proof_entry
neighbor_proof_entry x = record { entry = slot_proof_entry x.entry; leaf_key = x.leaf_key }

unfoldable pub storage_proof : StorageProof → V3.StorageProof
unfolding slot_proof_entry neighbor_proof_entry
storage_proof (existing entry) = V3.existing (slot_proof_entry entry)
storage_proof (non_existing left right) =
    V3.non_existing (neighbor_proof_entry left) (neighbor_proof_entry right)

unfoldable pub tree_leaf : TreeLeaf → V3.TreeLeaf
tree_leaf x = record { key = x.key; value = x.value; next_index = x.next_index }

unfoldable pub write_op : WriteOp → V3.WriteOp
write_op (update index) = V3.update index
write_op (insert prev_index) = V3.insert prev_index

unfoldable pub batch_tree_update : BatchTreeUpdate → V3.BatchTreeUpdate
unfolding write_op tree_leaf
batch_tree_update x = record {
  operations = map write_op x.operations;
  entries = x.entries;
  sorted_leaves = map (λ (index, leaf). (index, tree_leaf leaf)) x.sorted_leaves;
  intermediate_hashes = x.intermediate_hashes;
  leaf_count_before = x.leaf_count_before;
}

unfoldable pub interop_slot_proofs : InteropSlotProofs → Result ConversionError V3.InteropSlotProofs
unfolding storage_proof
interop_slot_proofs x = elim x.commitment_tree [
  | some proofs ↦ err interop_commitment_tree
  | none ↦ ok (record {
    sl_chain_id = storage_proof x.sl_chain_id;
    multichain_height = storage_proof x.multichain_height;
    multichain_root = storage_proof x.multichain_root;
  })
]

unfoldable pub tx_auth : TxAuth → V3.TxAuth
tx_auth (l1 tx_hash abi_encoded) = V3.l1 tx_hash abi_encoded
tx_auth (upgrade tx_hash abi_encoded) = V3.upgrade tx_hash abi_encoded
tx_auth (l2 signed_bytes) = V3.l2 signed_bytes
tx_auth (system tx_hash encoded_2718) = V3.system tx_hash encoded_2718

unfoldable pub tx_input : TxInput → V3.TxInput
unfolding tx_auth
tx_input x = record {
  chain_id = x.chain_id;
  gas_used_override = x.gas_used_override;
  force_fail = x.force_fail;
  auth = tx_auth x.auth;
}

unfoldable pub l2_to_l1_log_entry : L2ToL1LogEntry → V3.L2ToL1LogEntry
l2_to_l1_log_entry x = record {
  l2_shard_id = x.l2_shard_id;
  is_service = x.is_service;
  tx_number_in_block = x.tx_number_in_block;
  sender = x.sender;
  key = x.key;
  value = x.value;
}

unfoldable pub block_input : BlockInput → V3.BlockInput
unfolding tx_input storage_proof l2_to_l1_log_entry
block_input x = record {
  number = x.number;
  timestamp = x.timestamp;
  base_fee = x.base_fee;
  gas_limit = x.gas_limit;
  coinbase = x.coinbase;
  prev_randao = x.prev_randao;
  transactions = map tx_input x.transactions;
  account_preimages = x.account_preimages;
  block_hashes = x.block_hashes;
  storage_proofs = map (λ (key, proof). (key, storage_proof proof)) x.storage_proofs;
  block_header_hash = x.block_header_hash;
  l2_to_l1_logs = map l2_to_l1_log_entry x.l2_to_l1_logs;
  expected_tree_root = x.expected_tree_root;
}

-- `value.interop_proofs.map(TryInto::try_into).transpose()`
unfoldable pub interop_proofs_of :
    Option InteropSlotProofs → Result ConversionError (Option V3.InteropSlotProofs)
unfolding interop_slot_proofs
interop_proofs_of none = ok none
interop_proofs_of (some x) = do proofs ← interop_slot_proofs x; ok (some proofs)

unfoldable pub batch_meta : BatchMeta → Result ConversionError V3.BatchMeta
unfolding batch_tree_update interop_proofs_of
batch_meta x = do
  guard (x.pubdata_content == pubdata_content_full) (unsupported_pubdata_content x.pubdata_content)
  interop_proofs ← interop_proofs_of x.interop_proofs
  ok (record {
    tree_root_before = x.tree_root_before;
    leaf_count_before = x.leaf_count_before;
    block_number_before = x.block_number_before;
    last_block_timestamp_before = x.last_block_timestamp_before;
    block_hashes_blake_before = x.block_hashes_blake_before;
    previous_block_hashes = x.previous_block_hashes;
    upgrade_tx_hash = x.upgrade_tx_hash;
    da_commitment_scheme = x.da_commitment_scheme;
    pubdata = x.pubdata;
    multichain_root = x.multichain_root;
    sl_chain_id = x.sl_chain_id;
    blob_versioned_hashes = x.blob_versioned_hashes;
    tree_update = Option.map batch_tree_update x.tree_update;
    account_preimages_after = x.account_preimages_after;
    fri_proof_verification_enabled = x.fri_proof_verification_enabled;
    max_tx_gas_limit = x.max_tx_gas_limit;
    interop_proofs = interop_proofs;
  })

unfoldable pub batch_input : BatchInput → Result ConversionError V3.BatchInput
unfolding block_input batch_meta
batch_input x = do
  guard (not (ltb 2 x.spec_id)) (unsupported_spec x.spec_id)
  batch_meta ← batch_meta x.batch_meta
  ok (record {
    version = V3.batch_input_version;
    chain_id = x.chain_id;
    spec_id = x.spec_id;
    protocol_version_minor = x.protocol_version_minor;
    blocks = map block_input x.blocks;
    batch_meta = batch_meta;
    bytecodes = x.bytecodes;
  })
