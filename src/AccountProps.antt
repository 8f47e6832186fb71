-- ===== src/AccountProps.antt =====
-- Account properties: the decoder and the storage keys of lib/src/merkle.rs, and the fields that
-- lib/src/account_props.rs derives from EVM code.
pub mod Decode
use zksync_os_zisk.Prelude.{
  ℕ, zero, suc, ◌+◌, ◌-◌, ◌*◌, ◌/◌, ◌%◌, ◌^◌, Bool, true, false, ◌&&◌, ◌||◌, Option, none, some,
  List, [], ◌∷◌, ◌++◌, ◌==◌, ltb, leb, if◌then◌else◌, length, get_elem?, get_or, set, take, drop,
  replicate, Result, ok, err, ◌>>=◌, ◌>>◌, guard, from_option,
}
use zksync_os_zisk.Prelude.Bytes.{be_bytes, from_be_bytes}
use zksync_os_zisk.Merkle.Hash.{B256, Blake2s}
use zksync_os_zisk.Types.{Address, Bytes}
use zksync_os_zisk.Commitment.Hash.{Keccak}

abbrev pub encoded_size : ℕ
encoded_size = 124

pub record AccountProperties : Type 0 where
  pub versioning : ℕ
  pub nonce : ℕ
  pub balance : ℕ
  pub bytecode_hash : B256
  pub unpadded_code_len : ℕ
  pub artifacts_len : ℕ
  pub observable_bytecode_hash : B256
  pub observable_bytecode_len : ℕ

pub data AccountPropertiesDecodeError : Type 0 where
  wrong_length : (expected actual : ℕ) → AccountPropertiesDecodeError

-- `data.get(offset..offset + n)`, read as a big-endian number.
unfoldable pub read_account_properties_field : ℕ → Bytes → ℕ → Result AccountPropertiesDecodeError ℕ
read_account_properties_field n data' offset =
    if leb (offset + n) (length data')
    then ok (from_be_bytes (take n (drop offset data')))
    else err (wrong_length encoded_size (length data'))

unfoldable pub decode : Bytes → Result AccountPropertiesDecodeError AccountProperties
unfolding read_account_properties_field
decode data' = do
  guard (length data' == encoded_size) (wrong_length encoded_size (length data'))
  versioning ← read_account_properties_field 8 data' 0
  nonce ← read_account_properties_field 8 data' 8
  balance ← read_account_properties_field 32 data' 16
  bytecode_hash ← read_account_properties_field 32 data' 48
  unpadded_code_len ← read_account_properties_field 4 data' 80
  artifacts_len ← read_account_properties_field 4 data' 84
  observable_bytecode_hash ← read_account_properties_field 32 data' 88
  observable_bytecode_len ← read_account_properties_field 4 data' 120
  ok (record {
    versioning = versioning;
    nonce = nonce;
    balance = balance;
    bytecode_hash = bytecode_hash;
    unpadded_code_len = unpadded_code_len;
    artifacts_len = artifacts_len;
    observable_bytecode_hash = observable_bytecode_hash;
    observable_bytecode_len = observable_bytecode_len;
  })

pub record CodeFields : Type 0 where
  pub versioning : ℕ
  pub bytecode_hash : B256
  pub unpadded_code_len : ℕ
  pub artifacts_len : ℕ
  pub observable_bytecode_hash : B256
  pub observable_bytecode_len : ℕ

abbrev pub empty : CodeFields
empty = record {
  versioning = 0;
  bytecode_hash = 0;
  unpadded_code_len = 0;
  artifacts_len = 0;
  observable_bytecode_hash = 0;
  observable_bytecode_len = 0;
}

abbrev pub code_fields_of : AccountProperties → CodeFields
code_fields_of props = record {
  versioning = props.versioning;
  bytecode_hash = props.bytecode_hash;
  unpadded_code_len = props.unpadded_code_len;
  artifacts_len = props.artifacts_len;
  observable_bytecode_hash = props.observable_bytecode_hash;
  observable_bytecode_len = props.observable_bytecode_len;
}

-- `bitmap[i / 8] |= 1 << (i % 8)`
abbrev pub set_bit : Bytes → ℕ → Bytes
set_bit bitmap i =
    let byte = get_or bitmap (i / 8) 0 in
    set bitmap (i / 8) (if byte / 2 ^ (i % 8) % 2 == 1 then byte else byte + 2 ^ (i % 8))

-- The loop over the code from position `i`. Each round moves on, so `length code` rounds are enough.
unfoldable pub jumpdest_loop : ℕ → Bytes → ℕ → Bytes → Bytes
jumpdest_loop zero code i bitmap = bitmap
jumpdest_loop (suc rounds) code i bitmap = elim (get_elem? code i) [
  | none ↦ bitmap
  | some op ↦
      if op == 91
      then jumpdest_loop rounds code (i + 1) (set_bit bitmap i)
      else if leb 96 op && leb op 127
      then jumpdest_loop rounds code (i + 1 + (op - 96 + 1)) bitmap
      else jumpdest_loop rounds code (i + 1) bitmap
]

unfoldable pub evm_jumpdest_bitmap : Bytes → Bytes
unfolding jumpdest_loop
evm_jumpdest_bitmap code =
    jumpdest_loop (length code) code 0 (replicate ((length code + 63) / 64 * 8) 0)

-- The three bytes are written to places of the u64 that do not meet.
abbrev pub versioning_of : ℕ → ℕ → ℕ
versioning_of status code_version = status * 2 ^ 56 + 1 * 2 ^ 48 + code_version * 2 ^ 40

unfoldable pub is_delegation : Bytes → Bool
is_delegation code =
    length code == 23 && (get_or code 0 0 == 239 && (get_or code 1 0 == 1 && get_or code 2 0 == 0))

unfoldable pub artifacts_of : Bytes → Bytes
unfolding is_delegation evm_jumpdest_bitmap
artifacts_of code = if is_delegation code then [] else evm_jumpdest_bitmap code

abbrev pub padding_len : Bytes → ℕ
padding_len code = (8 - length code % 8) % 8

unfoldable pub evm_bytecode_preimage : Bytes → Bytes
unfolding artifacts_of
evm_bytecode_preimage code = code ++ (replicate (padding_len code) 0 ++ artifacts_of code)

module _ ⦃H : Blake2s⦄ where
  unfoldable pub hash : Bytes → B256
  hash encoded = H.blake2s encoded

  unfoldable pub derive_flat_storage_key : Address → B256 → B256
  derive_flat_storage_key address slot =
      H.blake2s (replicate 12 0 ++ (be_bytes 20 address ++ be_bytes 32 slot))

  -- The account's address, left-padded to a word, is the same number.
  unfoldable pub derive_account_properties_key : Address → B256
  unfolding derive_flat_storage_key
  derive_account_properties_key account = derive_flat_storage_key 32771 account

  unfoldable pub evm_code_fields : ⦃K : Keccak⦄ → Bytes → CodeFields
  unfolding evm_bytecode_preimage artifacts_of is_delegation
  evm_code_fields ⦃K⦄ code = record {
    versioning = versioning_of (if is_delegation code then 2 else 1) 1;
    bytecode_hash = H.blake2s (code ++ (replicate (padding_len code) 0 ++ artifacts_of code));
    unpadded_code_len = length code % 2 ^ 32;
    artifacts_len = length (artifacts_of code) % 2 ^ 32;
    observable_bytecode_hash = K.keccak256 code;
    observable_bytecode_len = length code % 2 ^ 32;
  }
