-- ===== src/Merkle/Walk/Roots.antt =====
-- All levels of the walk: an authenticated old root makes the new root that of the new tree.
use zksync_os_zisk.Prelude.{
  ℕ, zero, suc, ◌+◌, ◌*◌, ◌^◌, ◌<◌, ◌≡◌, subst, inl, inr, List, [], ◌∷◌, All, ok, Result-cases,
  arith,
}
use mathlib.Core.Path.{ap₂}
use native.Mathlib.Nat.{pow-suc}
use zksync_os_zisk.Merkle.Hash.{B256, IsB256, Blake2s, blake2s_compress, UnlessCollision, and_then}
use zksync_os_zisk.Merkle.Tree.{up, levels, up-IsB256, LevelsIn}
use zksync_os_zisk.Merkle.Update.Order.{Above, indices}
use zksync_os_zisk.Merkle.Walk.{HashPair, Node, walk_level, walk_levels, single_root}
use zksync_os_zisk.Merkle.Walk.Level.{run_of}
use zksync_os_zisk.Merkle.Walk.Shape.{OldFits, run-Above, run-below, run-Absent, run-fits}
use zksync_os_zisk.Merkle.Walk.Sound.{OldOf, NewOf, Agrees, run_sound}

module _ ⦃H : Blake2s⦄ where
  -- What the walk from `level` to `top` says of an old tree with the levels of `f`.
  abbrev RootsSound : ℕ → (ℕ → B256) → List Node → List Node → Type 0
  RootsSound rounds f level top =
      OldOf f level
      × ((g : ℕ → B256)
          → Agrees 0 f g (indices level)
          → NewOf g level
          → NewOf (levels rounds g) top)

module _ ⦃H : Blake2s⦄ {Q : List ℕ → Type 0} (count : ℕ) where
  pub walk_levels_sound :
      (rounds depth : ℕ) (f : ℕ → B256) (level top : List Node) (hs hs' : List B256)
      → LevelsIn Q rounds f
      → ((i : ℕ) → IsB256 (f i))
      → Above 0 (indices level)
      → OldFits level
      → All IsB256 hs
      → walk_levels count rounds depth level hs ≡ ok (top, hs')
      → OldOf (levels rounds f) top
      → UnlessCollision Q (RootsSound rounds f level top)
  unfolding walk_levels levels
  walk_levels_sound zero depth f level top hs hs' known f_fits a old fits e roots =
      let et : level ≡ top = ground arith in inl (rw et roots, λ g agrees new. rw (← et) new)
  walk_levels_sound (suc rounds) depth f level top hs hs' known f_fits a old fits e roots =
      elim (Result-cases (walk_level count depth level hs)) [
        | inr (x, r) ↦ absurd (ground arith)
        | inl ((next, hs₁), r) ↦
            let run = run_of count depth level next hs hs₁ r in
            let (old₁, fits₁) = run-fits count depth run fits in
            and_then
              (walk_levels_sound rounds (depth + 1) (up f) next top hs₁ hs' known.1 (up-IsB256 f)
                (run-Above count depth 0 run a) old₁ fits₁ (ground arith) roots)
              λ above.
                and_then (run_sound count depth f known.0 f_fits 0 run a old fits above.0) λ here.
                  inl (
                    here.0,
                    λ g agrees new.
                        above.1 (up g)
                          (λ j hj absent.
                            let (l, r') = run-Absent count depth j run absent in
                            ap₂ blake2s_compress (agrees (2 * j) (omega arith) l)
                              (agrees (2 * j + 1) (omega arith) r'))
                          (here.1 g agrees new),
                  )
      ]

module _ ⦃H : Blake2s⦄ (count : ℕ) where
  pub walk_levels-below :
      (rounds depth : ℕ) (level top : List Node) (hs hs' : List B256)
      → All (λ i. i < 2 ^ rounds) (indices level)
      → walk_levels count rounds depth level hs ≡ ok (top, hs')
      → All (λ i. i < 1) (indices top)
  unfolding walk_levels
  walk_levels-below zero depth level top hs hs' below e =
      let et : level ≡ top = ground arith in rw (← et) below
  walk_levels-below (suc rounds) depth level top hs hs' below e =
      elim (Result-cases (walk_level count depth level hs)) [
        | inr (x, r) ↦ absurd (ground arith)
        | inl ((next, hs₁), r) ↦
            walk_levels-below rounds (depth + 1) next top hs₁ hs'
              (run-below count depth (2 ^ rounds) (run_of count depth level next hs hs₁ r) (
                subst (λ (n : ℕ). All (λ i. i < n) (indices level))
                  (omega (arith, pow-suc 2 rounds)) below))
              (ground arith)
      ]

-- The walk ends in the one node at position 0.
pub single_root-top :
    (top : List Node) (hs : List B256) (p : HashPair)
    → single_root top hs ≡ ok p
    → All (λ i. i < 1) (indices top)
    → top ≡ (0, p) ∷ []
unfolding single_root
single_root-top [] [] p e b = absurd (cc)
single_root-top [] (h ∷ hs) p e b = absurd (cc)
single_root-top ((i, q) ∷ []) [] p e b =
    let ep : q ≡ p = ground arith in let ei : i ≡ 0 = omega arith in λ j. (ei j, ep j) ∷ []
single_root-top ((i, q) ∷ []) (h ∷ hs) p e b = absurd (cc)
single_root-top ((i, q) ∷ n ∷ top) [] p e b = absurd (cc)
single_root-top ((i, q) ∷ n ∷ top) (h ∷ hs) p e b = absurd (cc)
