-- ===== src/Tests/BlockHeader.antt =====
-- The theorem on block headers with a toy hash, and RLP codes of lib/src/block_header.rs.
use zksync_os_zisk.Merkle.Hash.{Only}
use zksync_os_zisk.Prelude.{◌^◌, ◌≡◌, refl, [], ◌∷◌, arith}
use zksync_os_zisk.Prelude.Bytes.{be_bytes}
use zksync_os_zisk.Commitment.Hash.{UnlessKeccakCollision}
use zksync_os_zisk.BlockHeader.{
  HeaderFields, rlp_encode_number, rlp_encode_bytes, rlp_encode_list_header,
}
use zksync_os_zisk.BlockHeader.Binding.{header_preimage, compute_block_header_hash_inj}
use zksync_os_zisk.Tests.Toy.{toy_keccak}

abbrev header : HeaderFields
header = record {
  parent_hash = 7;
  beneficiary = 2 ^ 159;
  transactions_root = 2 ^ 255;
  receipts_root = 0;
  number = 12;
  gas_limit = 30000000;
  gas_used = 21000;
  timestamp = 1700000000;
  mix_hash = 1;
  base_fee_per_gas = 0;
}

compute_block_header_hash_inj_example :
    UnlessKeccakCollision (Only (header_preimage header)) (header ≡ header)
compute_block_header_hash_inj_example =
    compute_block_header_hash_inj header header
      (
        omega arith,
        omega arith,
        omega arith,
        omega arith,
        omega arith,
        omega arith,
        omega arith,
        omega arith,
        omega arith,
        omega arith,
      )
      (
        omega arith,
        omega arith,
        omega arith,
        omega arith,
        omega arith,
        omega arith,
        omega arith,
        omega arith,
        omega arith,
        omega arith,
      )
      refl

-- 1024 is two bytes under their length, zero is the empty string, and a byte below 0x80 is its own
-- code.
number_code_test : rlp_encode_number (be_bytes 8 1024) ≡ 0x82 ∷ 4 ∷ 0 ∷ []
unfolding rlp_encode_number
number_code_test = refl

zero_code_test : rlp_encode_number (be_bytes 8 0) ≡ 0x80 ∷ []
unfolding rlp_encode_number
zero_code_test = refl

byte_code_test : rlp_encode_bytes (0x7f ∷ []) ≡ 0x7f ∷ []
unfolding rlp_encode_bytes
byte_code_test = refl

list_header_test : rlp_encode_list_header 500 ≡ 0xf9 ∷ 1 ∷ 0xf4 ∷ []
unfolding rlp_encode_list_header
list_header_test = refl
