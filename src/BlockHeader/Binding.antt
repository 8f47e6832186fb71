-- ===== src/BlockHeader/Binding.antt =====
-- The block header hash of lib/src/block_header.rs determines the header's fields.
use zksync_os_zisk.Prelude.{refl, ℕ, ◌^◌, ◌<◌, ◌≡◌, inl, [], ◌++◌, length, replicate, arith}
use zksync_os_zisk.Prelude.Bytes.{be_bytes, be_bytes_eq, length-be_bytes, be_bytes-IsByte}
use zksync_os_zisk.Types.{Bytes}
use zksync_os_zisk.Merkle.Hash.{Only, B256, IsB256}
use zksync_os_zisk.Commitment.Hash.{Keccak, keccak256_inj, UnlessKeccakCollision, and_then}
use zksync_os_zisk.BlockHeader.{
  rlp_encode_list_header, HeaderFields, header_content, compute_block_header_hash, rlp_encode_bytes,
  rlp_encode_number, empty_ommer_hash,
}
use zksync_os_zisk.BlockHeader.Rlp.{
  append_inj_left, rlp_encode_bytes_inj, rlp_encode_number_inj, rlp_encode_list_header_inj,
}

-- Every field is of its Rust type: 32 bytes, 20 bytes or a `u64`.
abbrev pub IsHeader : HeaderFields → Type 0
IsHeader h =
    IsB256 h.parent_hash
    × (h.beneficiary < 2 ^ 160)
    × IsB256 h.transactions_root
    × IsB256 h.receipts_root
    × (h.number < 2 ^ 64)
    × (h.gas_limit < 2 ^ 64)
    × (h.gas_used < 2 ^ 64)
    × (h.timestamp < 2 ^ 64)
    × IsB256 h.mix_hash
    × (h.base_fee_per_gas < 2 ^ 64)

-- Fixed-width words at the front of two codes are equal, and so is what follows.
fixed_inj :
    (k n m : ℕ) {xs ys : Bytes}
    → k < 56
    → n < 256 ^ k
    → m < 256 ^ k
    → rlp_encode_bytes (be_bytes k n) ++ xs ≡ rlp_encode_bytes (be_bytes k m) ++ ys
    → (n ≡ m) × (xs ≡ ys)
fixed_inj k n m {xs} {ys} short hn hm e =
    let (same, rest) =
      rlp_encode_bytes_inj (be_bytes k n) (be_bytes k m) xs ys (omega (arith, length-be_bytes k n))
        (omega (arith, length-be_bytes k m)) (be_bytes-IsByte k n) (be_bytes-IsByte k m) e in
    (be_bytes_eq k n m hn hm same, rest)

word_inj :
    (n m : B256) {xs ys : Bytes}
    → IsB256 n
    → IsB256 m
    → rlp_encode_bytes (be_bytes 32 n) ++ xs ≡ rlp_encode_bytes (be_bytes 32 m) ++ ys
    → (n ≡ m) × (xs ≡ ys)
word_inj n m hn hm e = fixed_inj 32 n m (omega arith) hn hm e

number_inj :
    (n m : ℕ) {xs ys : Bytes}
    → n < 2 ^ 64
    → m < 2 ^ 64
    → rlp_encode_number (be_bytes 8 n) ++ xs ≡ rlp_encode_number (be_bytes 8 m) ++ ys
    → (n ≡ m) × (xs ≡ ys)
number_inj n m {xs} {ys} hn hm e = rlp_encode_number_inj n m xs ys hn hm e

-- Headers with one content have equal fields.
header_content_inj :
    (a b : HeaderFields) → IsHeader a → IsHeader b → header_content a ≡ header_content b → a ≡ b
unfolding header_content
header_content_inj a b (pa, ba, ta, ra, na, la, ua, sa, ma, fa)
      (pb, bb, tb, rb, nb, lb, ub, sb, mb, fb) e =
    let (parent, e₁) = word_inj a.parent_hash b.parent_hash pa pb e in
    let e₂ = append_inj_left (rlp_encode_bytes (be_bytes 32 empty_ommer_hash)) _ _ e₁ in
    let (beneficiary, e₃) = fixed_inj 20 a.beneficiary b.beneficiary (omega arith) ba bb e₂ in
    let e₄ = append_inj_left (rlp_encode_bytes (be_bytes 32 0)) _ _ e₃ in
    let (transactions, e₅) = word_inj a.transactions_root b.transactions_root ta tb e₄ in
    let (receipts, e₆) = word_inj a.receipts_root b.receipts_root ra rb e₅ in
    let e₇ = append_inj_left (rlp_encode_bytes (replicate 256 0)) _ _ e₆ in
    let e₈ = append_inj_left (rlp_encode_number (replicate 32 0)) _ _ e₇ in
    let (number, e₉) = number_inj a.number b.number na nb e₈ in
    let (limit, e₁₀) = number_inj a.gas_limit b.gas_limit la lb e₉ in
    let (used, e₁₁) = number_inj a.gas_used b.gas_used ua ub e₁₀ in
    let (timestamp, e₁₂) = number_inj a.timestamp b.timestamp sa sb e₁₁ in
    let e₁₃ = append_inj_left (rlp_encode_bytes []) _ _ e₁₂ in
    let (mix, e₁₄) = word_inj a.mix_hash b.mix_hash ma mb e₁₃ in
    let e₁₅ = append_inj_left (rlp_encode_bytes (replicate 8 0)) _ _ e₁₄ in
    let (fee, e₁₆) = number_inj a.base_fee_per_gas b.base_fee_per_gas fa fb e₁₅ in
    λ i. record {
      parent_hash = parent i;
      beneficiary = beneficiary i;
      transactions_root = transactions i;
      receipts_root = receipts i;
      number = number i;
      gas_limit = limit i;
      gas_used = used i;
      timestamp = timestamp i;
      mix_hash = mix i;
      base_fee_per_gas = fee i;
    }

-- What the header hash hashes.
abbrev pub header_preimage : HeaderFields → Bytes
header_preimage h = rlp_encode_list_header (length (header_content h)) ++ header_content h

module _ ⦃K : Keccak⦄ where
  -- Two block headers whose fields have the Rust types and whose header hashes are equal have equal
  -- fields, unless a second preimage of the encoding of the second is at hand.
  pub compute_block_header_hash_inj :
      (a b : HeaderFields)
      → IsHeader a
      → IsHeader b
      → compute_block_header_hash a ≡ compute_block_header_hash b
      → UnlessKeccakCollision (Only (header_preimage b)) (a ≡ b)
  unfolding compute_block_header_hash
  compute_block_header_hash_inj a b ha hb e = and_then (keccak256_inj _ _ refl e) λ p. inl (
      header_content_inj a b ha hb
        (rlp_encode_list_header_inj (length (header_content a)) (length (header_content b)) _ _ p))
