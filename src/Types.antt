-- ===== src/Types.antt =====
-- The types of lib/src/types.rs that the server and the guest share, and the encoding of a log record.
-- An address is a number below 2 ^ 160, read big-endian; a byte string is a list of numbers below 256.
pub mod Log
use zksync_os_zisk.Prelude.{ℕ, Bool, true, false, Option, List, ◌++◌, ◌∷◌, []}
use zksync_os_zisk.Prelude.Bytes.{be_bytes}
use zksync_os_zisk.Merkle.Hash.{B256}
use zksync_os_zisk.Merkle.Proof.{StorageProof}
use zksync_os_zisk.Merkle.Update.{BatchTreeUpdate}

abbrev pub Address : Type 0
Address = ℕ

abbrev pub Bytes : Type 0
Bytes = List ℕ

abbrev pub batch_input_version : ℕ
batch_input_version = 6

abbrev pub pubdata_content_full : ℕ
pubdata_content_full = 0

abbrev pub pubdata_content_logs_only : ℕ
pubdata_content_logs_only = 1

pub record InteropCommitmentTreeProofs : Type 0 where
  pub height_begin : StorageProof
  pub root_begin : StorageProof
  pub height_end : StorageProof
  pub root_end : StorageProof

pub record InteropSlotProofs : Type 0 where
  pub sl_chain_id : StorageProof
  pub multichain_height : StorageProof
  pub multichain_root : StorageProof
  pub commitment_tree : Option InteropCommitmentTreeProofs

pub data TxAuth : Type 0 where
  l1 : (tx_hash : B256) (abi_encoded : Bytes) → TxAuth
  upgrade : (tx_hash : B256) (abi_encoded : Bytes) → TxAuth
  l2 : (signed_bytes : Bytes) → TxAuth
  system : (tx_hash : B256) (encoded_2718 : Bytes) → TxAuth

pub record TxInput : Type 0 where
  pub chain_id : Option ℕ
  pub gas_used_override : Option ℕ
  pub force_fail : Bool
  pub auth : TxAuth

pub record L2ToL1LogEntry : Type 0 where
  pub l2_shard_id : ℕ
  pub is_service : Bool
  pub tx_number_in_block : ℕ
  pub sender : Address
  pub key : B256
  pub value : B256

pub record BlockInput : Type 0 where
  pub number : ℕ
  pub timestamp : ℕ
  pub base_fee : ℕ
  pub gas_limit : ℕ
  pub coinbase : Address
  pub prev_randao : B256
  pub transactions : List TxInput
  pub account_preimages : List (Address × Bytes)
  pub block_hashes : List (ℕ × B256)
  pub storage_proofs : List (B256 × StorageProof)
  pub block_header_hash : B256
  pub l2_to_l1_logs : List L2ToL1LogEntry
  pub expected_tree_root : B256

pub record BatchMeta : Type 0 where
  pub tree_root_before : B256
  pub leaf_count_before : ℕ
  pub block_number_before : ℕ
  pub last_block_timestamp_before : ℕ
  pub block_hashes_blake_before : B256
  pub previous_block_hashes : List B256
  pub upgrade_tx_hash : B256
  pub da_commitment_scheme : ℕ
  pub pubdata : Bytes
  pub multichain_root : B256
  pub sl_chain_id : ℕ
  pub blob_versioned_hashes : List B256
  pub tree_update : Option BatchTreeUpdate
  pub account_preimages_after : List (Address × Bytes)
  pub fri_proof_verification_enabled : Bool
  pub max_tx_gas_limit : ℕ
  pub pubdata_content : ℕ
  pub l1_tx_filtering_enabled : Bool
  pub large_contracts_enabled : Bool
  pub interop_proofs : Option InteropSlotProofs

pub record BatchInput : Type 0 where
  pub version : ℕ
  pub chain_id : ℕ
  pub spec_id : ℕ
  pub protocol_version_minor : ℕ
  pub blocks : List BlockInput
  pub batch_meta : BatchMeta
  pub bytecodes : List (B256 × Bytes)

abbrev pub bool_byte : Bool → ℕ
bool_byte true = 1
bool_byte false = 0

-- The six fields of the 88-byte record, side by side.
unfoldable pub encode : L2ToL1LogEntry → Bytes
encode log =
    log.l2_shard_id ∷ bool_byte log.is_service ∷ be_bytes 2 log.tx_number_in_block
    ++ (be_bytes 20 log.sender ++ (be_bytes 32 log.key ++ be_bytes 32 log.value))
