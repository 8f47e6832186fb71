-- ===== src/Wire/V3.antt =====
-- The frozen schema of wire version 3 (lib/src/wire/v3.rs), and what cannot be written in it.
pub mod Normalize
pub mod Freeze
pub mod Nested
pub mod RoundTrip
use zksync_os_zisk.Prelude.{ℕ, Bool, Option, List}
use zksync_os_zisk.Merkle.Hash.{B256}
use zksync_os_zisk.Types.{Address, Bytes}

abbrev pub batch_input_version : ℕ
batch_input_version = 3

pub record SlotProofEntry : Type 0 where
  pub index : ℕ
  pub value : B256
  pub next_index : ℕ
  pub siblings : List B256

pub record NeighborProofEntry : Type 0 where
  pub entry : SlotProofEntry
  pub leaf_key : B256

pub data StorageProof : Type 0 where
  existing : SlotProofEntry → StorageProof
  non_existing : NeighborProofEntry → NeighborProofEntry → StorageProof

pub record TreeLeaf : Type 0 where
  pub key : B256
  pub value : B256
  pub next_index : ℕ

pub data WriteOp : Type 0 where
  update : ℕ → WriteOp
  insert : ℕ → WriteOp

pub record BatchTreeUpdate : Type 0 where
  pub operations : List WriteOp
  pub entries : List (B256 × B256)
  pub sorted_leaves : List (ℕ × TreeLeaf)
  pub intermediate_hashes : List B256
  pub leaf_count_before : ℕ

pub record InteropSlotProofs : Type 0 where
  pub sl_chain_id : StorageProof
  pub multichain_height : StorageProof
  pub multichain_root : StorageProof

pub data TxAuth : Type 0 where
  l1 : (tx_hash : B256) (abi_encoded : Bytes) → TxAuth
  upgrade : (tx_hash : B256) (abi_encoded : Bytes) → TxAuth
  l2 : (signed_bytes : Bytes) → TxAuth
  system : (tx_hash : B256) (encoded_2718 : Bytes) → TxAuth

pub record TxInput : Type 0 where
  pub chain_id : Option ℕ
  pub gas_used_override : Option ℕ
  pub force_fail : Bool
  pub auth : TxAuth

pub record L2ToL1LogEntry : Type 0 where
  pub l2_shard_id : ℕ
  pub is_service : Bool
  pub tx_number_in_block : ℕ
  pub sender : Address
  pub key : B256
  pub value : B256

pub record BlockInput : Type 0 where
  pub number : ℕ
  pub timestamp : ℕ
  pub base_fee : ℕ
  pub gas_limit : ℕ
  pub coinbase : Address
  pub prev_randao : B256
  pub transactions : List TxInput
  pub account_preimages : List (Address × Bytes)
  pub block_hashes : List (ℕ × B256)
  pub storage_proofs : List (B256 × StorageProof)
  pub block_header_hash : B256
  pub l2_to_l1_logs : List L2ToL1LogEntry
  pub expected_tree_root : B256

pub record BatchMeta : Type 0 where
  pub tree_root_before : B256
  pub leaf_count_before : ℕ
  pub block_number_before : ℕ
  pub last_block_timestamp_before : ℕ
  pub block_hashes_blake_before : B256
  pub previous_block_hashes : List B256
  pub upgrade_tx_hash : B256
  pub da_commitment_scheme : ℕ
  pub pubdata : Bytes
  pub multichain_root : B256
  pub sl_chain_id : ℕ
  pub blob_versioned_hashes : List B256
  pub tree_update : Option BatchTreeUpdate
  pub account_preimages_after : List (Address × Bytes)
  pub fri_proof_verification_enabled : Bool
  pub max_tx_gas_limit : ℕ
  pub interop_proofs : Option InteropSlotProofs

pub record BatchInput : Type 0 where
  pub version : ℕ
  pub chain_id : ℕ
  pub spec_id : ℕ
  pub protocol_version_minor : ℕ
  pub blocks : List BlockInput
  pub batch_meta : BatchMeta
  pub bytecodes : List (B256 × Bytes)

pub data ConversionError : Type 0 where
  unsupported_spec : (spec_id : ℕ) → ConversionError
  unsupported_pubdata_content : (mode : ℕ) → ConversionError
  interop_commitment_tree : ConversionError
