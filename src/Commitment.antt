-- ===== src/Commitment.antt =====
-- The hashes that a batch commits to: lib/src/commitment.rs. Keccak-256 is an interface: the guest runs
-- it on an accelerator, the host in a crate.
pub mod Hash
pub mod Binding
pub mod Output
pub mod Config
pub mod Rolling
pub mod Logs
pub mod State
use zksync_os_zisk.Prelude.{
  ℕ, zero, suc, ◌+◌, ◌-◌, ◌*◌, ◌%◌, ◌^◌, Bool, true, false, not, Option, none, some, List, [], ◌∷◌,
  ◌++◌, map, leb, if◌then◌else◌, length, get_elem?, get_or, replicate, take, concat,
}
use zksync_os_zisk.Prelude.Bytes.{be_bytes}
use zksync_os_zisk.Merkle.Hash.{B256, Blake2s}
use zksync_os_zisk.Types.{Bytes, bool_byte, BatchInput, pubdata_content_logs_only}
use zksync_os_zisk.FixedHeight.{fold_leaves, empty_loop}
use zksync_os_zisk.Commitment.Hash.{Keccak, keccak_compress}

-- 24 zero bytes and a u64: a U256, big-endian.
abbrev pub u256_of_u64 : ℕ → Bytes
u256_of_u64 n = replicate 24 0 ++ be_bytes 8 n

-- A chunk that a layout may leave out.
abbrev pub when : Bool → Bytes → Bytes
when b chunk = if b then chunk else []

module _ ⦃H : Blake2s⦄ where
  unfoldable pub state_commitment_hash : B256 → ℕ → ℕ → B256 → ℕ → B256
  state_commitment_hash tree_root leaf_count block_number block_hashes_blake last_block_timestamp =
      H.blake2s (
        concat (
          be_bytes 32 tree_root
          ∷ be_bytes 8 leaf_count
          ∷ be_bytes 8 block_number
          ∷ be_bytes 32 block_hashes_blake
          ∷ be_bytes 8 last_block_timestamp
          ∷ []))

  unfoldable pub block_hashes_blake : List B256 → B256 → B256
  block_hashes_blake previous_255_hashes current_block_hash = H.blake2s (
      concat (map (λ hash. be_bytes 32 hash) previous_255_hashes) ++ be_bytes 32 current_block_hash)

abbrev pub l2_to_l1_tree_height : ℕ
l2_to_l1_tree_height = 14

pub data ChainBatchRootLayout : Type 0 where
  two_preimage_keccak height_three_merkle : ChainBatchRootLayout

abbrev pub chain_batch_root_empty_subtree_hashes : List B256
chain_batch_root_empty_subtree_hashes =
    0 ∷ 78338746147236970124700731725183845421594913511827187288591969170390706184117
    ∷ 81757488971647249256201108876818235391657316964190183850860279249598597369136
    ∷ 15318078431219349596458550810601853783715137025043390934891860045346920446597 ∷ []

pub data BatchOutputLayout : Type 0 where
  v30 v31 atlas_v4 : BatchOutputLayout

-- The arguments of `batch_output_hash_native` after the layout.
pub record BatchOutputFields : Type 0 where
  pub chain_id : ℕ
  pub first_block_timestamp : ℕ
  pub last_block_timestamp : ℕ
  pub da_commitment_scheme : ℕ
  pub da_commitment : B256
  pub number_of_layer1_txs : ℕ
  pub number_of_layer2_txs : ℕ
  pub priority_operations_hash : B256
  pub l2_to_l1_logs_root_hash : B256
  pub upgrade_tx_hash : B256
  pub interop_roots_rolling_hash : B256
  pub settlement_layer_chain_id : ℕ

-- `layout != BatchOutputLayout::V30` and `layout != BatchOutputLayout::AtlasV4`
abbrev pub has_v31_tail : BatchOutputLayout → Bool
has_v31_tail v30 = false
has_v31_tail v31 = true
has_v31_tail atlas_v4 = true

abbrev pub has_chain_id : BatchOutputLayout → Bool
has_chain_id v30 = true
has_chain_id v31 = true
has_chain_id atlas_v4 = false

unfoldable pub batch_output_preimage : BatchOutputLayout → BatchOutputFields → Bytes
batch_output_preimage layout o = concat (
    when (has_chain_id layout) (u256_of_u64 o.chain_id)
    ∷ be_bytes 8 o.first_block_timestamp
    ∷ be_bytes 8 o.last_block_timestamp
    ∷ (replicate 31 0 ++ o.da_commitment_scheme ∷ [])
    ∷ be_bytes 32 o.da_commitment
    ∷ u256_of_u64 o.number_of_layer1_txs
    ∷ when (has_v31_tail layout) (u256_of_u64 o.number_of_layer2_txs)
    ∷ be_bytes 32 o.priority_operations_hash
    ∷ be_bytes 32 o.l2_to_l1_logs_root_hash
    ∷ be_bytes 32 o.upgrade_tx_hash
    ∷ be_bytes 32 o.interop_roots_rolling_hash
    ∷ when (has_v31_tail layout) (u256_of_u64 o.settlement_layer_chain_id)
    ∷ [])

pub data ChainConfigLayout : Type 0 where
  atlas_v4 atlas_v5 : ChainConfigLayout

pub record ChainConfig : Type 0 where
  pub chain_id : ℕ
  pub fri_proof_verification_enabled : Bool
  pub max_tx_gas_limit : ℕ
  pub pubdata_content : ℕ
  pub l1_tx_filtering_enabled : Bool
  pub large_contracts_enabled : Bool

unfoldable pub of_batch : BatchInput → ChainConfig
of_batch input = record {
  chain_id = input.chain_id;
  fri_proof_verification_enabled = input.batch_meta.fri_proof_verification_enabled;
  max_tx_gas_limit = input.batch_meta.max_tx_gas_limit;
  pubdata_content = input.batch_meta.pubdata_content;
  l1_tx_filtering_enabled = input.batch_meta.l1_tx_filtering_enabled;
  large_contracts_enabled = input.batch_meta.large_contracts_enabled;
}

-- A word whose last byte is written.
abbrev pub byte_word : ℕ → Bytes
byte_word b = replicate 31 0 ++ b ∷ []

-- The zeroed array of 192 bytes, written over word by word.
unfoldable pub chain_config_words : ChainConfig → Bytes
chain_config_words config = concat (
    u256_of_u64 config.chain_id
    ∷ byte_word (bool_byte config.fri_proof_verification_enabled)
    ∷ u256_of_u64 config.max_tx_gas_limit
    ∷ byte_word config.pubdata_content
    ∷ byte_word (bool_byte config.l1_tx_filtering_enabled)
    ∷ byte_word (bool_byte config.large_contracts_enabled)
    ∷ [])

abbrev pub chain_config_length : ChainConfigLayout → ℕ
chain_config_length atlas_v4 = 128
chain_config_length atlas_v5 = 192

abbrev pub pubdata_encoding_version : ℕ
pubdata_encoding_version = 3

-- One section: the envelope header, the log count as a u32, the log records.
unfoldable pub logs_section : List Bytes → Bytes
logs_section logs =
    pubdata_encoding_version ∷ pubdata_content_logs_only ∷ be_bytes 4 (length logs % 2 ^ 32)
    ++ concat logs

unfoldable pub logs_only_pubdata : List (List Bytes) → Bytes
unfolding logs_section
logs_only_pubdata logs_by_block = concat (map (λ logs. logs_section logs) logs_by_block)

module _ ⦃K : Keccak⦄ where
  unfoldable pub keccak_two : B256 → B256 → B256
  keccak_two a b = keccak_compress a b

  -- `none` where the assertion fails.
  unfoldable pub fixed_height_keccak_root : List B256 → List B256 → Option B256
  fixed_height_keccak_root leaves table =
      if leb (length leaves) (2 ^ (length table - 1))
      then fold_leaves (λ l r. keccak_compress l r) leaves table
      else none

  unfoldable pub empty_subtree_hashes : B256 → ℕ → List B256
  empty_subtree_hashes empty_leaf height = empty_loop (λ l r. keccak_compress l r) height empty_leaf

  unfoldable pub l2_to_l1_logs_root : List Bytes → Option B256
  unfolding fixed_height_keccak_root empty_subtree_hashes
  l2_to_l1_logs_root encoded_logs =
      fixed_height_keccak_root (map (λ log. K.keccak256 log) encoded_logs)
        (empty_subtree_hashes (K.keccak256 (replicate 88 0)) l2_to_l1_tree_height)

  unfoldable pub chain_batch_root : ChainBatchRootLayout → B256 → B256 → B256 → B256 → Option B256
  unfolding fixed_height_keccak_root
  chain_batch_root two_preimage_keccak l2_logs_root multichain_root root_begin root_end =
      some (keccak_compress l2_logs_root multichain_root)
  chain_batch_root height_three_merkle l2_logs_root multichain_root root_begin root_end =
      fixed_height_keccak_root (l2_logs_root ∷ multichain_root ∷ root_begin ∷ root_end ∷ [])
        chain_batch_root_empty_subtree_hashes

  unfoldable pub batch_output_hash_native : BatchOutputLayout → BatchOutputFields → B256
  unfolding batch_output_preimage
  batch_output_hash_native layout o = K.keccak256 (batch_output_preimage layout o)

  unfoldable pub chain_config_hash : ChainConfigLayout → ChainConfig → B256
  unfolding chain_config_words
  chain_config_hash layout config =
      K.keccak256 (take (chain_config_length layout) (chain_config_words config))

  -- The loop over the hashes, from the hash so far.
  unfoldable pub rolling_from : B256 → List B256 → B256
  rolling_from hash [] = hash
  rolling_from hash (tx_hash ∷ rest) = rolling_from (keccak_compress hash tx_hash) rest

  unfoldable pub priority_ops_rolling_hash : List B256 → B256
  unfolding rolling_from
  priority_ops_rolling_hash l1_tx_hashes = rolling_from (K.keccak256 []) l1_tx_hashes

  unfoldable pub da_commitment_calldata : Bytes → B256
  da_commitment_calldata pubdata =
      K.keccak256 (
        concat
          (replicate 32 0 ∷ be_bytes 32 (K.keccak256 pubdata) ∷ (1 ∷ []) ∷ replicate 32 0 ∷ []))

  unfoldable pub da_commitment_blobs : List B256 → B256
  da_commitment_blobs versioned_hashes =
      K.keccak256 (concat (map (λ hash. be_bytes 32 hash) versioned_hashes))

  unfoldable pub batch_public_input_hash : B256 → B256 → Option B256 → B256 → B256
  batch_public_input_hash state_before state_after none batch_output_hash = K.keccak256 (
      concat
        (be_bytes 32 state_before ∷ be_bytes 32 state_after ∷ be_bytes 32 batch_output_hash ∷ []))
  batch_public_input_hash state_before state_after (some config_hash) batch_output_hash =
      K.keccak256 (
        concat (
          be_bytes 32 state_before
          ∷ be_bytes 32 state_after
          ∷ be_bytes 32 config_hash
          ∷ be_bytes 32 batch_output_hash
          ∷ []))
