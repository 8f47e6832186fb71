-- ===== src/Commitment/Rolling.antt =====
-- The rolling hash of the priority operations (lib/src/commitment.rs) determines the operations.
use zksync_os_zisk.Prelude.{
  ℕ, zero, suc, ◌+◌, ◌≡◌, refl, ap, sym, ◌⊎◌, inl, inr, List, [], ◌∷◌, ◌++◌, length, length-append,
  All, arith,
}
use mathlib.Core.Path.{ap₂}
use zksync_os_zisk.Prelude.Bytes.{be_bytes, length-be_bytes}
use zksync_os_zisk.Merkle.Hash.{B256, IsB256}
use zksync_os_zisk.Commitment.Hash.{
  Keccak, keccak256_inj, UnlessKeccakCollision, and_then, keccak_compress, keccak_compress-IsB256,
  keccak_compress_inj, pair_preimage,
}
use zksync_os_zisk.Commitment.{rolling_from, priority_ops_rolling_hash}

module _ ⦃K : Keccak⦄ where
  -- The byte strings of a run from `h` are in `Q`.
  abbrev pub RollingIn : (List ℕ → Type 0) → B256 → List B256 → Type 0
  RollingIn Q h [] = Unit
  RollingIn Q h (x ∷ xs) = Q (pair_preimage h x) × RollingIn Q (keccak_compress h x) xs

  -- The byte strings that a run from `h` hashes.
  abbrev pub RollingHashed : B256 → List B256 → List ℕ → Type 0
  RollingHashed h [] m = ⊥
  RollingHashed h (x ∷ xs) m = (m ≡ pair_preimage h x) ⊎ RollingHashed (keccak_compress h x) xs m

  pub RollingHashed-RollingIn :
      (Q : List ℕ → Type 0) (h : B256) (xs : List B256)
      → ((m : List ℕ) → RollingHashed h xs m → Q m)
      → RollingIn Q h xs
  RollingHashed-RollingIn Q h [] sub = tt
  RollingHashed-RollingIn Q h (x ∷ xs) sub = (
    sub (pair_preimage h x) (inl refl),
    RollingHashed-RollingIn Q (keccak_compress h x) xs (λ m r. sub m (inr r)),
  )

  -- Those of the rolling hashes of two lists of operations.
  abbrev pub OpsHashed : List B256 → List B256 → List ℕ → Type 0
  OpsHashed xs ys m = RollingHashed (K.keccak256 []) xs m ⊎ RollingHashed (K.keccak256 []) ys m

  -- The hash of no operations is that of the empty string, which no node has.
  start_not_node :
      {Q : List ℕ → Type 0} (l r : B256)
      → Q (pair_preimage l r)
      → K.keccak256 [] ≡ keccak_compress l r
      → UnlessKeccakCollision Q (⊥)
  unfolding keccak_compress
  start_not_node l r known e =
      and_then (keccak256_inj [] (be_bytes 32 l ++ be_bytes 32 r) known e) λ p. absurd (
        omega (
          arith,
          ap length p,
          length-append (be_bytes 32 l) (be_bytes 32 r),
          length-be_bytes 32 l,
          length-be_bytes 32 r,
        ))

  -- Two runs that end in one hash: one is the end of the other.
  rolling_from_inj :
      {Q : List ℕ → Type 0} (xs ys : List B256) (h k : B256)
      → RollingIn Q k ys
      → length xs ≡ length ys
      → IsB256 h
      → IsB256 k
      → All IsB256 xs
      → All IsB256 ys
      → rolling_from h xs ≡ rolling_from k ys
      → UnlessKeccakCollision Q ((h ≡ k) × (xs ≡ ys))
  unfolding rolling_from
  rolling_from_inj [] [] h k known el hh hk hx hy e = inl (e, refl)
  rolling_from_inj [] (y ∷ ys) h k known el hh hk hx hy e = absurd (omega arith)
  rolling_from_inj (x ∷ xs) [] h k known el hh hk hx hy e = absurd (omega arith)
  rolling_from_inj (x ∷ xs) (y ∷ ys) h k known el hh hk (hx, hxs) (hy, hys) e =
      and_then
        (rolling_from_inj xs ys (keccak_compress h x) (keccak_compress k y) known.1 (omega arith)
          (keccak_compress-IsB256 h x) (keccak_compress-IsB256 k y) hxs hys e)
        λ (heads, tails).
          and_then (keccak_compress_inj h x k y known.0 hh hx hk hy heads)
            λ (eh, ex). inl (eh, ap₂ (λ z zs. z ∷ zs) ex tails)

  -- A run from the start cannot end where a run of another length does.
  longer :
      {Q : List ℕ → Type 0} (xs ys : List B256) (h : B256) (m : ℕ)
      → RollingIn Q h ys
      → length ys ≡ suc m + length xs
      → IsB256 h
      → All IsB256 xs
      → All IsB256 ys
      → rolling_from (K.keccak256 []) xs ≡ rolling_from h ys
      → UnlessKeccakCollision Q (⊥)
  unfolding rolling_from
  longer xs [] h m known el hh hx hy e = absurd (omega arith)
  longer xs (y ∷ ys) h zero known el hh hx (hy, hys) e =
      and_then
        (rolling_from_inj xs ys (K.keccak256 []) (keccak_compress h y) known.1 (omega arith)
          (K.keccak256-IsB256 []) (keccak_compress-IsB256 h y) hx hys e)
        λ (heads, tails). start_not_node h y known.0 heads
  longer xs (y ∷ ys) h (suc m) known el hh hx (hy, hys) e =
      longer xs ys (keccak_compress h y) m known.1 (omega arith) (keccak_compress-IsB256 h y) hx hys
        e

  -- Lists of operation hashes with one rolling hash are equal, unless a second preimage of a byte
  -- string that one of the two runs hashes is at hand.
  pub priority_ops_rolling_hash_inj :
      (xs ys : List B256)
      → All IsB256 xs
      → All IsB256 ys
      → priority_ops_rolling_hash xs ≡ priority_ops_rolling_hash ys
      → UnlessKeccakCollision (OpsHashed xs ys) (xs ≡ ys)
  unfolding priority_ops_rolling_hash
  priority_ops_rolling_hash_inj xs ys hx hy e = elim (lengths (length xs) (length ys)) [
    | inl same ↦
        and_then
          (rolling_from_inj xs ys (K.keccak256 []) (K.keccak256 []) in_ys same
            (K.keccak256-IsB256 []) (K.keccak256-IsB256 []) hx hy e)
          λ (heads, es). inl es
    | inr (inl (m, more)) ↦
        and_then (longer xs ys (K.keccak256 []) m in_ys more (K.keccak256-IsB256 []) hx hy e)
          λ no. absurd no
    | inr (inr (m, less)) ↦
        and_then (longer ys xs (K.keccak256 []) m in_xs less (K.keccak256-IsB256 []) hy hx (sym e))
          λ no. absurd no
  ]
    where
      in_xs : RollingIn (OpsHashed xs ys) (K.keccak256 []) xs
      in_xs = RollingHashed-RollingIn (OpsHashed xs ys) (K.keccak256 []) xs (λ m r. inl r)

      in_ys : RollingIn (OpsHashed xs ys) (K.keccak256 []) ys
      in_ys = RollingHashed-RollingIn (OpsHashed xs ys) (K.keccak256 []) ys (λ m r. inr r)

      lengths : (a b : ℕ) → (a ≡ b) ⊎ (((m : ℕ) × (b ≡ suc m + a)) ⊎ ((m : ℕ) × (a ≡ suc m + b)))
      lengths zero zero = inl refl
      lengths zero (suc b) = inr (inl (b, omega arith))
      lengths (suc a) zero = inr (inr (a, omega arith))
      lengths (suc a) (suc b) = elim (lengths a b) [
        | inl e ↦ inl (omega arith)
        | inr (inl (m, e)) ↦ inr (inl (m, omega arith))
        | inr (inr (m, e)) ↦ inr (inr (m, omega arith))
      ]
