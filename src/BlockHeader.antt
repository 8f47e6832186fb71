-- ===== src/BlockHeader.antt =====
-- The block header hash and the rolling hash of transactions: lib/src/block_header.rs.
pub mod Rlp
pub mod Binding
use zksync_os_zisk.Prelude.{
  ℕ, zero, suc, ◌+◌, ◌&&◌, List, [], ◌∷◌, ◌++◌, ◌==◌, ltb, if◌then◌else◌, length, get_or, replicate,
  concat,
}
use zksync_os_zisk.Prelude.Bytes.{be_bytes}
use zksync_os_zisk.Types.{Address, Bytes}
use zksync_os_zisk.Merkle.Hash.{B256}
use zksync_os_zisk.Commitment.Hash.{Keccak}

abbrev pub empty_ommer_hash : B256
empty_ommer_hash = 0x1dcc4de8dec75d7aab85b567b6ccd41ad312451b948a7413f0a142fd40d49347

-- The Keccak-256 hash of no bytes, the seed of the rolling hash from AtlasV3 on.
abbrev pub keccak_empty : B256
keccak_empty = 0xc5d2460186f7233c927e7db2dcc703c0e500b653ca82273b7bfad8045d85a470

unfoldable pub strip_leading_zeros : Bytes → Bytes
strip_leading_zeros [] = []
strip_leading_zeros (b ∷ bytes) =
    let rest = strip_leading_zeros bytes in if b == 0 then rest else b ∷ bytes

-- Leading zeros off, the last byte kept.
unfoldable pub trim : Bytes → Bytes
trim [] = []
trim (b ∷ []) = b ∷ []
trim (b ∷ c ∷ bytes) = let rest = trim (c ∷ bytes) in if b == 0 then rest else b ∷ c ∷ bytes

unfoldable pub be_bytes_trimmed : ℕ → Bytes
unfolding trim be_bytes
be_bytes_trimmed val = trim (be_bytes 8 val)

unfoldable pub rlp_encode_bytes : Bytes → Bytes
unfolding be_bytes_trimmed
rlp_encode_bytes bytes =
    if length bytes == 1 && ltb (get_or bytes 0 0) 0x80
    then bytes
    else (if ltb (length bytes) 56
        then (0x80 + length bytes) ∷ bytes
        else (0xb7 + length (be_bytes_trimmed (length bytes))) ∷ be_bytes_trimmed (length bytes)
          ++ bytes)

unfoldable pub rlp_encode_number : Bytes → Bytes
unfolding strip_leading_zeros rlp_encode_bytes
rlp_encode_number bytes =
    let stripped = strip_leading_zeros bytes in
    if length stripped == 0 then 0x80 ∷ [] else rlp_encode_bytes stripped

unfoldable pub rlp_encode_list_header : ℕ → Bytes
unfolding be_bytes_trimmed
rlp_encode_list_header content_len =
    if ltb content_len 56
    then (0xc0 + content_len) ∷ []
    else (0xf7 + length (be_bytes_trimmed content_len)) ∷ be_bytes_trimmed content_len

-- The arguments of `compute_block_header_hash`.
pub record HeaderFields : Type 0 where
  pub parent_hash : B256
  pub beneficiary : Address
  pub transactions_root : B256
  pub receipts_root : B256
  pub number : ℕ
  pub gas_limit : ℕ
  pub gas_used : ℕ
  pub timestamp : ℕ
  pub mix_hash : B256
  pub base_fee_per_gas : ℕ

-- The encoded fields, side by side.
unfoldable pub header_content : HeaderFields → Bytes
unfolding rlp_encode_bytes rlp_encode_number be_bytes
header_content h = concat (
    rlp_encode_bytes (be_bytes 32 h.parent_hash)
    ∷ rlp_encode_bytes (be_bytes 32 empty_ommer_hash)
    ∷ rlp_encode_bytes (be_bytes 20 h.beneficiary)
    ∷ rlp_encode_bytes (be_bytes 32 0)
    ∷ rlp_encode_bytes (be_bytes 32 h.transactions_root)
    ∷ rlp_encode_bytes (be_bytes 32 h.receipts_root)
    ∷ rlp_encode_bytes (replicate 256 0)
    ∷ rlp_encode_number (replicate 32 0)
    ∷ rlp_encode_number (be_bytes 8 h.number)
    ∷ rlp_encode_number (be_bytes 8 h.gas_limit)
    ∷ rlp_encode_number (be_bytes 8 h.gas_used)
    ∷ rlp_encode_number (be_bytes 8 h.timestamp)
    ∷ rlp_encode_bytes []
    ∷ rlp_encode_bytes (be_bytes 32 h.mix_hash)
    ∷ rlp_encode_bytes (replicate 8 0)
    ∷ rlp_encode_number (be_bytes 8 h.base_fee_per_gas)
    ∷ [])

module _ ⦃K : Keccak⦄ where
  unfoldable pub compute_block_header_hash : HeaderFields → B256
  unfolding header_content rlp_encode_list_header
  compute_block_header_hash h =
      K.keccak256 (rlp_encode_list_header (length (header_content h)) ++ header_content h)

  unfoldable pub transactions_rolling_hash : List B256 → B256 → B256
  transactions_rolling_hash [] rolling = rolling
  transactions_rolling_hash (tx_hash ∷ tx_hashes) rolling =
      transactions_rolling_hash tx_hashes (K.keccak256 (be_bytes 32 rolling ++ be_bytes 32 tx_hash))
