-- ===== src/Wire/V5.antt =====
-- The frozen schema of wire version 5 (lib/src/wire/v5.rs) and its reading as the current one. Nested
-- types are shared with the current schema.
use zksync_os_zisk.Prelude.{ℕ, Bool, false, Option, List}
use zksync_os_zisk.Merkle.Hash.{B256}
use zksync_os_zisk.Merkle.Update.{BatchTreeUpdate}
use zksync_os_zisk.Types
use zksync_os_zisk.Types.{Address, Bytes, BlockInput, InteropSlotProofs}

abbrev pub batch_input_version : ℕ
batch_input_version = 5

pub record BatchMeta : Type 0 where
  pub tree_root_before : B256
  pub leaf_count_before : ℕ
  pub block_number_before : ℕ
  pub last_block_timestamp_before : ℕ
  pub block_hashes_blake_before : B256
  pub previous_block_hashes : List B256
  pub upgrade_tx_hash : B256
  pub da_commitment_scheme : ℕ
  pub pubdata : Bytes
  pub multichain_root : B256
  pub sl_chain_id : ℕ
  pub blob_versioned_hashes : List B256
  pub tree_update : Option BatchTreeUpdate
  pub account_preimages_after : List (Address × Bytes)
  pub fri_proof_verification_enabled : Bool
  pub max_tx_gas_limit : ℕ
  pub pubdata_content : ℕ
  pub interop_proofs : Option InteropSlotProofs

pub record BatchInput : Type 0 where
  pub version : ℕ
  pub chain_id : ℕ
  pub spec_id : ℕ
  pub protocol_version_minor : ℕ
  pub blocks : List BlockInput
  pub batch_meta : BatchMeta
  pub bytecodes : List (B256 × Bytes)

unfoldable pub batch_meta : BatchMeta → Types.BatchMeta
batch_meta x = record {
  tree_root_before = x.tree_root_before;
  leaf_count_before = x.leaf_count_before;
  block_number_before = x.block_number_before;
  last_block_timestamp_before = x.last_block_timestamp_before;
  block_hashes_blake_before = x.block_hashes_blake_before;
  previous_block_hashes = x.previous_block_hashes;
  upgrade_tx_hash = x.upgrade_tx_hash;
  da_commitment_scheme = x.da_commitment_scheme;
  pubdata = x.pubdata;
  multichain_root = x.multichain_root;
  sl_chain_id = x.sl_chain_id;
  blob_versioned_hashes = x.blob_versioned_hashes;
  tree_update = x.tree_update;
  account_preimages_after = x.account_preimages_after;
  fri_proof_verification_enabled = x.fri_proof_verification_enabled;
  max_tx_gas_limit = x.max_tx_gas_limit;
  pubdata_content = x.pubdata_content;
  l1_tx_filtering_enabled = false;
  large_contracts_enabled = false;
  interop_proofs = x.interop_proofs;
}

unfoldable pub batch_input : BatchInput → Types.BatchInput
unfolding batch_meta
batch_input x = record {
  version = x.version;
  chain_id = x.chain_id;
  spec_id = x.spec_id;
  protocol_version_minor = x.protocol_version_minor;
  blocks = x.blocks;
  batch_meta = batch_meta x.batch_meta;
  bytecodes = x.bytecodes;
}
