-- ===== src/FixedHeight/Binding.antt =====
-- A root binds the leaves, where equal node hashes have equal children or a `C` is at hand.
use zksync_os_zisk.Prelude.{
  ℕ, zero, suc, ◌+◌, ◌*◌, ◌/◌, ◌^◌, ◌<◌, ◌≡◌, refl, ap, sym, ◌∙◌, ◌⊎◌, inl, inr, List, [], ◌∷◌,
  length, All, ltb, ltb→lt, ltb→le, Bool-cases, arith,
}
use native.Mathlib.Nat.{pow-suc}
use zksync_os_zisk.Merkle.Hash.{B256, IsB256}
use zksync_os_zisk.FixedHeight.{full_levels}
use zksync_os_zisk.FixedHeight.Root.{pad}

-- The nodes of the first `n` levels above the leaves are known.
abbrev pub LevelsKnown :
    (node : B256 → B256 → B256) (Known : B256 → B256 → Type 0) (n : ℕ) (f : ℕ → B256) → Type 0
LevelsKnown node Known zero f = Unit
LevelsKnown node Known (suc n) f =
    ((i : ℕ) → Known (f (2 * i)) (f (2 * i + 1)))
    × LevelsKnown node Known n (λ i. node (f (2 * i)) (f (2 * i + 1)))

-- The byte strings that the first `n` levels above the leaves hash, each node with its preimage.
abbrev pub LevelsHashed :
    (node : B256 → B256 → B256) (preimage : B256 → B256 → List ℕ) (n : ℕ) (f : ℕ → B256)
    → List ℕ
    → Type 0
LevelsHashed node preimage zero f m = ⊥
LevelsHashed node preimage (suc n) f m =
    ((i : ℕ) × (m ≡ preimage (f (2 * i)) (f (2 * i + 1))))
    ⊎ LevelsHashed node preimage n (λ i. node (f (2 * i)) (f (2 * i + 1))) m

pub LevelsHashed-LevelsKnown :
    (node : B256 → B256 → B256) (preimage : B256 → B256 → List ℕ) (Q : List ℕ → Type 0) (n : ℕ)
    → (f : ℕ → B256) → ((m : List ℕ) → LevelsHashed node preimage n f m → Q m)
    → LevelsKnown node (λ c d. Q (preimage c d)) n f
LevelsHashed-LevelsKnown node preimage Q zero f h = tt
LevelsHashed-LevelsKnown node preimage Q (suc n) f h = (
  λ i. h (preimage (f (2 * i)) (f (2 * i + 1))) (inl (i, refl)),
  LevelsHashed-LevelsKnown node preimage Q n (λ i. node (f (2 * i)) (f (2 * i + 1)))
      (λ m x. h m (inr x)),
)

module _ (node : B256 → B256 → B256) (C : Type 0) (Known : B256 → B256 → Type 0)
    (node-IsB256 : (l r : B256) → IsB256 (node l r))
    (node_inj : (a b c d : B256)
      → Known c d
      → IsB256 a
      → IsB256 b
      → IsB256 c
      → IsB256 d
      → node a b ≡ node c d
      → ((a ≡ c) × (b ≡ d)) ⊎ C) where
  -- Equal up to a position, or a `C`.
  all_below :
      (n : ℕ) (f g : ℕ → B256)
      → ((j : ℕ) → j < n → (f j ≡ g j) ⊎ C)
      → ((j : ℕ) → j < n → f j ≡ g j) ⊎ C
  all_below zero f g h = inl (λ j lt. elim lt [ ])
  all_below (suc n) f g h = elim (h n (omega arith)) [
    | inr c ↦ inr c
    | inl last ↦ elim (all_below n f g (λ j lt. h j (omega arith))) [
      | inr c ↦ inr c
      | inl before ↦ inl (λ j lt. elim (Bool-cases (ltb j n)) [
        | inl old ↦ before j (ltb→lt _ _ old)
        | inr new ↦ let ej : j ≡ n = omega (arith, ltb→le _ _ new) in rw ej last
      ])
    ]
  ]

  -- Trees of one root have one leaf at each position.
  pub full_levels-IsB256 :
      (n : ℕ) (f : ℕ → B256) → ((j : ℕ) → IsB256 (f j)) → (j : ℕ) → IsB256 (full_levels node n f j)
  unfolding full_levels
  full_levels-IsB256 zero f hf j = hf j
  full_levels-IsB256 (suc n) f hf j =
      full_levels-IsB256 n (λ i. node (f (2 * i)) (f (2 * i + 1)))
        (λ i. node-IsB256 (f (2 * i)) (f (2 * i + 1))) j

  pub full_levels_inj :
      (n : ℕ) (f g : ℕ → B256)
      → LevelsKnown node Known n g
      → ((j : ℕ) → IsB256 (f j))
      → ((j : ℕ) → IsB256 (g j))
      → full_levels node n f 0 ≡ full_levels node n g 0
      → ((j : ℕ) → j < 2 ^ n → f j ≡ g j) ⊎ C
  unfolding full_levels
  full_levels_inj zero f g known hf hg e = inl (λ j lt. let z : j ≡ 0 = omega arith in rw z e)
  full_levels_inj (suc n) f g known hf hg e =
      elim (full_levels_inj n (λ i. node (f (2 * i)) (f (2 * i + 1)))
        (λ i. node (g (2 * i)) (g (2 * i + 1))) known.1
        (λ i. node-IsB256 (f (2 * i)) (f (2 * i + 1)))
        (λ i. node-IsB256 (g (2 * i)) (g (2 * i + 1))) e) [
          | inr c ↦ inr c
          | inl parents ↦ all_below (2 ^ suc n) f g (λ j lt.
              let k = j / 2 in
              elim (node_inj (f (2 * k)) (f (2 * k + 1)) (g (2 * k)) (g (2 * k + 1)) (known.0 k)
                (hf (2 * k)) (hf (2 * k + 1)) (hg (2 * k)) (hg (2 * k + 1))
                (parents k (omega (arith, pow-suc 2 n)))) [
                  | inr c ↦ inr c
                  | inl (el, er) ↦ elim (Bool-cases (ltb (2 * k) j)) [
                    | inl odd ↦
                        let ej : j ≡ 2 * k + 1 = omega (arith, ltb→lt _ _ odd) in
                        inl (ap f ej ∙ (er ∙ ap g (sym ej)))
                    | inr even ↦
                        let ej : j ≡ 2 * k = omega (arith, ltb→le _ _ even) in
                        inl (ap f ej ∙ (el ∙ ap g (sym ej)))
                  ]
                ])
        ]

-- Padded lists with the leaves of one function are equal, if they are of one length.
pub pad_inj :
    (leaf : B256) (xs ys : List B256)
    → length xs ≡ length ys
    → ((j : ℕ) → j < length xs → pad xs leaf j ≡ pad ys leaf j)
    → xs ≡ ys
pad_inj leaf [] [] el h = refl
pad_inj leaf [] (y ∷ ys) el h = absurd (omega arith)
pad_inj leaf (x ∷ xs) [] el h = absurd (omega arith)
pad_inj leaf (x ∷ xs) (y ∷ ys) el h =
    λ i. h 0 (omega arith) i ∷ pad_inj leaf xs ys (omega arith) (λ j lt. h (suc j) (omega arith)) i

pub pad-IsB256 :
    (leaf : B256) (xs : List B256) → IsB256 leaf → All IsB256 xs → (j : ℕ) → IsB256 (pad xs leaf j)
pad-IsB256 leaf [] h hs j = h
pad-IsB256 leaf (x ∷ xs) h (hx, hs) zero = hx
pad-IsB256 leaf (x ∷ xs) h (hx, hs) (suc j) = pad-IsB256 leaf xs h hs j
