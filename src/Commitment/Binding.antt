-- ===== src/Commitment/Binding.antt =====
-- The batch public input of lib/src/commitment.rs determines the words that it commits.
use zksync_os_zisk.Prelude.{
  ℕ, ◌+◌, ◌≡◌, ◌≢◌, refl, ap, sym, inl, Option, none, some, List, [], ◌∷◌, length, length-append,
  concat, arith,
}
use zksync_os_zisk.Prelude.Bytes.{be_bytes, be_bytes_inj, length-be_bytes}
use zksync_os_zisk.Merkle.Hash.{Only, B256, IsB256}
use zksync_os_zisk.Commitment.Hash.{Keccak, keccak256_inj, UnlessKeccakCollision, and_then}
use zksync_os_zisk.Commitment.{batch_public_input_hash}

-- A word on the way through two equal byte strings.
pub word_inj :
    (n m : ℕ) (xs ys : List (List ℕ))
    → IsB256 n
    → IsB256 m
    → concat (be_bytes 32 n ∷ xs) ≡ concat (be_bytes 32 m ∷ ys)
    → (n ≡ m) × (concat xs ≡ concat ys)
word_inj n m xs ys hn hm e = be_bytes_inj 32 n m (concat xs) (concat ys) hn hm e

pub length-word :
    (n : ℕ) (xs : List (List ℕ)) → length (concat (be_bytes 32 n ∷ xs)) ≡ 32 + length (concat xs)
length-word n xs = omega (arith, length-append (be_bytes 32 n) (concat xs), length-be_bytes 32 n)

abbrev pub OptionFits : Option B256 → Type 0
OptionFits none = Unit
OptionFits (some c) = IsB256 c

-- What the batch public input hashes.
abbrev pub public_input_preimage : B256 → B256 → Option B256 → B256 → List ℕ
public_input_preimage before after none output =
    concat (be_bytes 32 before ∷ be_bytes 32 after ∷ be_bytes 32 output ∷ [])
public_input_preimage before after (some config) output =
    concat (be_bytes 32 before ∷ be_bytes 32 after ∷ be_bytes 32 config ∷ be_bytes 32 output ∷ [])

module _ ⦃K : Keccak⦄ where
  three_not_four :
      (o c o' : B256) → concat (be_bytes 32 o ∷ []) ≢ concat (be_bytes 32 c ∷ be_bytes 32 o' ∷ [])
  three_not_four o c o' e =
      omega (
        arith,
        ap length e,
        length-word o [],
        length-word c (be_bytes 32 o' ∷ []),
        length-word o' [],
      )

  -- Batch public inputs with one hash, three or four words each, have equal words, and both or
  -- neither carry a chain config hash, unless a second preimage of the second input is at hand. Each
  -- word is below 2 ^ 256.
  pub batch_public_input_hash_inj :
      (before after output before' after' output' : B256) (config config' : Option B256)
      → IsB256 before
      → IsB256 after
      → IsB256 output
      → IsB256 before'
      → IsB256 after'
      → IsB256 output'
      → OptionFits config
      → OptionFits config'
      → batch_public_input_hash before after config output
        ≡ batch_public_input_hash before' after' config' output'
      → UnlessKeccakCollision
          (Only (public_input_preimage before' after' config' output'))
          ((before ≡ before') × (after ≡ after') × (config ≡ config') × (output ≡ output'))
  unfolding batch_public_input_hash
  batch_public_input_hash_inj b a o b' a' o' none none hb ha ho hb' ha' ho' hc hc' e =
      and_then (keccak256_inj _ _ refl e) λ p.
        let (eb, p₁) =
          word_inj b b' (be_bytes 32 a ∷ be_bytes 32 o ∷ []) (be_bytes 32 a' ∷ be_bytes 32 o' ∷ [])
            hb hb' p in
        let (ea, p₂) = word_inj a a' (be_bytes 32 o ∷ []) (be_bytes 32 o' ∷ []) ha ha' p₁ in
        let (eo, p₃) = word_inj o o' [] [] ho ho' p₂ in inl (eb, ea, refl, eo)
  batch_public_input_hash_inj b a o b' a' o' none (some c') hb ha ho hb' ha' ho' hc hc' e =
      and_then (keccak256_inj _ _ refl e) λ p.
        let (eb, p₁) =
          word_inj b b' (be_bytes 32 a ∷ be_bytes 32 o ∷ [])
            (be_bytes 32 a' ∷ be_bytes 32 c' ∷ be_bytes 32 o' ∷ []) hb hb' p in
        let (ea, p₂) =
          word_inj a a' (be_bytes 32 o ∷ []) (be_bytes 32 c' ∷ be_bytes 32 o' ∷ []) ha ha' p₁ in
        absurd (three_not_four o c' o' p₂)
  batch_public_input_hash_inj b a o b' a' o' (some c) none hb ha ho hb' ha' ho' hc hc' e =
      and_then (keccak256_inj _ _ refl e) λ p.
        let (eb, p₁) =
          word_inj b b' (be_bytes 32 a ∷ be_bytes 32 c ∷ be_bytes 32 o ∷ [])
            (be_bytes 32 a' ∷ be_bytes 32 o' ∷ []) hb hb' p in
        let (ea, p₂) =
          word_inj a a' (be_bytes 32 c ∷ be_bytes 32 o ∷ []) (be_bytes 32 o' ∷ []) ha ha' p₁ in
        absurd (three_not_four o' c o (sym p₂))
  batch_public_input_hash_inj b a o b' a' o' (some c) (some c') hb ha ho hb' ha' ho' hc hc' e =
      and_then (keccak256_inj _ _ refl e) λ p.
        let (eb, p₁) =
          word_inj b b' (be_bytes 32 a ∷ be_bytes 32 c ∷ be_bytes 32 o ∷ [])
            (be_bytes 32 a' ∷ be_bytes 32 c' ∷ be_bytes 32 o' ∷ []) hb hb' p in
        let (ea, p₂) =
          word_inj a a' (be_bytes 32 c ∷ be_bytes 32 o ∷ []) (be_bytes 32 c' ∷ be_bytes 32 o' ∷ [])
            ha ha' p₁ in
        let (ec, p₃) = word_inj c c' (be_bytes 32 o ∷ []) (be_bytes 32 o' ∷ []) hc hc' p₂ in
        let (eo, p₄) = word_inj o o' [] [] ho ho' p₃ in inl (eb, ea, ap some ec, eo)
