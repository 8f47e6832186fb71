-- ===== src/Commitment/Hash.antt =====
-- Keccak-256 as lib/src/commitment.rs uses it, and its second preimages.
use zksync_os_zisk.Prelude.{
  ℕ, ◌≡◌, ◌≢◌, refl, ap, ◌⊎◌, inl, inr, List, [], ◌∷◌, ◌++◌, ◌==◌, ==→eq, ==→ne, Bool-cases, get_or,
  drop,
}
use zksync_os_zisk.Prelude.Bytes.{be_bytes, be_bytes_inj, be_bytes_eq}
use zksync_os_zisk.Merkle.Hash.{B256, IsB256}

pub record Keccak : Type 0 where
  pub keccak256 : List ℕ → B256
  pub keccak256-IsB256 : (m : List ℕ) → IsB256 (keccak256 m)

-- Byte strings are equal or differ.
pub bytes_cases : (xs ys : List ℕ) → (xs ≡ ys) ⊎ (xs ≢ ys)
bytes_cases [] [] = inl refl
bytes_cases [] (y ∷ ys) = inr (λ e. cc)
bytes_cases (x ∷ xs) [] = inr (λ e. cc)
bytes_cases (x ∷ xs) (y ∷ ys) = elim (Bool-cases (x == y)) [
  | inr ne ↦ inr (λ e. ==→ne _ _ ne (ap (λ l. get_or l 0 0) e))
  | inl eq ↦ elim (bytes_cases xs ys) [
    | inr ne ↦ inr (λ e. ne (ap (λ l. drop 1 l) e))
    | inl es ↦ inl (λ i. ==→eq _ _ eq i ∷ es i)
  ]
]

module _ ⦃K : Keccak⦄ where
  -- A second preimage of one of the byte strings `Q`: two that differ and have one hash, of which one
  -- is in `Q`.
  pub record KeccakCollision (Q : List ℕ → Type 0) : Type 0 where
    pub first : List ℕ
    pub second : List ℕ
    pub known : Q second
    pub differ : first ≢ second
    pub agree : K.keccak256 first ≡ K.keccak256 second

  abbrev pub UnlessKeccakCollision {ℓ} : (List ℕ → Type 0) → Type ℓ → Type ℓ
  UnlessKeccakCollision Q P = P ⊎ KeccakCollision Q

  abbrev pub and_then {ℓ κ} :
      {Q : List ℕ → Type 0} {P : Type ℓ} {R : Type κ}
      → UnlessKeccakCollision Q P
      → (P → UnlessKeccakCollision Q R)
      → UnlessKeccakCollision Q R
  and_then (inl p) f = f p
  and_then (inr c) f = inr c

  -- A second preimage of one of more byte strings.
  pub widen_keccak {ℓ} :
      {Q R : List ℕ → Type 0} {P : Type ℓ}
      → ((m : List ℕ) → Q m → R m)
      → UnlessKeccakCollision Q P
      → UnlessKeccakCollision R P
  widen_keccak sub (inl p) = inl p
  widen_keccak sub (inr c) = inr (record {
    first = c.first;
    second = c.second;
    known = sub c.second c.known;
    differ = c.differ;
    agree = c.agree;
  })

  pub keccak256_inj :
      {Q : List ℕ → Type 0} (m n : List ℕ)
      → Q n
      → K.keccak256 m ≡ K.keccak256 n
      → UnlessKeccakCollision Q (m ≡ n)
  keccak256_inj m n known e = elim (bytes_cases m n) [
    | inl same ↦ inl same
    | inr differ ↦ inr (record { first = m; second = n; known = known; differ = differ; agree = e })
  ]

  abbrev pub pair_preimage : B256 → B256 → List ℕ
  pair_preimage lhs rhs = be_bytes 32 lhs ++ be_bytes 32 rhs

  unfoldable pub keccak_compress : B256 → B256 → B256
  keccak_compress lhs rhs = K.keccak256 (be_bytes 32 lhs ++ be_bytes 32 rhs)

  pub keccak_compress-IsB256 : (l r : B256) → IsB256 (keccak_compress l r)
  unfolding keccak_compress
  keccak_compress-IsB256 l r = K.keccak256-IsB256 (be_bytes 32 l ++ be_bytes 32 r)

  pub keccak_compress_inj :
      {Q : List ℕ → Type 0} (a b c d : B256)
      → Q (pair_preimage c d)
      → IsB256 a
      → IsB256 b
      → IsB256 c
      → IsB256 d
      → keccak_compress a b ≡ keccak_compress c d
      → UnlessKeccakCollision Q ((a ≡ c) × (b ≡ d))
  unfolding keccak_compress
  keccak_compress_inj a b c d known ha hb hc hd e =
      and_then
        (keccak256_inj (be_bytes 32 a ++ be_bytes 32 b) (be_bytes 32 c ++ be_bytes 32 d) known e)
        λ p.
          let (ac, tails) = be_bytes_inj 32 a c (be_bytes 32 b) (be_bytes 32 d) ha hc p in
          inl (ac, be_bytes_eq 32 b d hb hd tails)
