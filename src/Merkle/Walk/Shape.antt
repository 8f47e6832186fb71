-- ===== src/Merkle/Walk/Shape.antt =====
-- The positions that a run of one level touches, and the ranges of its hashes.
use zksync_os_zisk.Prelude.{
  ℕ, suc, ◌+◌, ◌-◌, ◌*◌, ◌/◌, ◌%◌, ◌^◌, ◌<◌, ◌≡◌, List, [], ◌∷◌, leb, Bool-cases, inl, inr, All, ok,
  arith,
}
use zksync_os_zisk.Merkle.Hash.{B256, IsB256, Blake2s, compress-IsB256, empty_subtree_hash}
use zksync_os_zisk.Merkle.Update.Order.{Above, Above-le, Absent, indices}
use zksync_os_zisk.Merkle.Proof.Path.{empty-IsB256}
use zksync_os_zisk.Merkle.Walk.{Node, resolve_offpath_sibling}
use zksync_os_zisk.Merkle.Walk.Level.{NotNext, LevelRun, finish, left, right, both}

abbrev pub OldFits : List Node → Type 0
OldFits [] = Unit
OldFits ((i, p) ∷ rest) = IsB256 p.old × OldFits rest

-- Nothing stands at `i + 1` either.
pub Above_skip :
    (i : ℕ) (rest : List Node)
    → NotNext i rest
    → Above (suc i) (indices rest)
    → Above (i + 2) (indices rest)
Above_skip i [] n a = tt
Above_skip i ((j, q) ∷ rest) n (p, a) = (omega arith, a)

module _ ⦃H : Blake2s⦄ (count depth : ℕ) where
  pub resolve-IsB256 :
      (sib_idx : ℕ) (hs hs' : List B256) (sib : B256)
      → resolve_offpath_sibling count depth sib_idx hs ≡ ok (sib, hs')
      → All IsB256 hs
      → IsB256 sib × All IsB256 hs'
  unfolding resolve_offpath_sibling
  resolve-IsB256 sib_idx [] hs' sib e fits =
      elim (Bool-cases (leb count (sib_idx * 2 ^ depth % 2 ^ 64))) [
        | inl empty ↦
            let es : empty_subtree_hash depth ≡ sib = ground arith in
            let eh : [] ≡ hs' = ground arith in (rw (← es) (empty-IsB256 depth), rw (← eh) tt)
        | inr below ↦ absurd (ground arith)
      ]
  resolve-IsB256 sib_idx (h ∷ hs) hs' sib e fits =
      elim (Bool-cases (leb count (sib_idx * 2 ^ depth % 2 ^ 64))) [
        | inl empty ↦
            let es : empty_subtree_hash depth ≡ sib = ground arith in
            let eh : h ∷ hs ≡ hs' = ground arith in (rw (← es) (empty-IsB256 depth), rw (← eh) fits)
        | inr below ↦
            let es : h ≡ sib = ground arith in
            let eh : hs ≡ hs' = ground arith in (rw (← es) fits.0, rw (← eh) fits.1)
      ]

  pub run-Above :
      {level next : List Node} {hs hs' : List B256} (lo : ℕ)
      → LevelRun count depth level hs next hs'
      → Above (2 * lo) (indices level)
      → Above lo (indices next)
  run-Above lo (finish hs) a = tt
  run-Above lo (left i p sib rest next hs hs₁ hs₂ odd e run) (h, a) =
      (omega arith, run-Above (suc (i / 2)) run (Above-le (indices rest) (omega arith) a))
  run-Above lo (right i p sib rest next hs hs₁ hs₂ even alone e run) (h, a) = (
    omega arith,
    run-Above (suc (i / 2)) run (Above-le (indices rest) (omega arith) (Above_skip i rest alone a)),
  )
  run-Above lo (both i j p q rest next hs hs₁ even ej run) (h, (k, a)) =
      (omega arith, run-Above (suc (i / 2)) run (Above-le (indices rest) (omega arith) a))

  pub run-below :
      {level next : List Node} {hs hs' : List B256} (n : ℕ)
      → LevelRun count depth level hs next hs'
      → All (λ i. i < 2 * n) (indices level)
      → All (λ i. i < n) (indices next)
  run-below n (finish hs) b = tt
  run-below n (left i p sib rest next hs hs₁ hs₂ odd e run) (h, b) =
      (omega arith, run-below n run b)
  run-below n (right i p sib rest next hs hs₁ hs₂ even alone e run) (h, b) =
      (omega arith, run-below n run b)
  run-below n (both i j p q rest next hs hs₁ even ej run) (h, (k, b)) =
      (omega arith, run-below n run b)

  -- Under a position that the level above leaves out, this level touches nothing.
  pub run-Absent :
      {level next : List Node} {hs hs' : List B256} (j : ℕ)
      → LevelRun count depth level hs next hs'
      → Absent j (indices next)
      → Absent (2 * j) (indices level) × Absent (2 * j + 1) (indices level)
  run-Absent j (finish hs) a = (tt, tt)
  run-Absent j (left i p sib rest next hs hs₁ hs₂ odd e run) (n, a) =
      let ih = run-Absent j run a in ((omega arith, ih.0), (omega arith, ih.1))
  run-Absent j (right i p sib rest next hs hs₁ hs₂ even alone e run) (n, a) =
      let ih = run-Absent j run a in ((omega arith, ih.0), (omega arith, ih.1))
  run-Absent j (both i k p q rest next hs hs₁ even ej run) (n, a) =
      let ih = run-Absent j run a in
      ((omega arith, (omega arith, ih.0)), (omega arith, (omega arith, ih.1)))

  pub run-fits :
      {level next : List Node} {hs hs' : List B256}
      → LevelRun count depth level hs next hs'
      → All IsB256 hs
      → OldFits next × All IsB256 hs'
  run-fits (finish hs) fits = (tt, fits)
  run-fits (left i p sib rest next hs hs₁ hs₂ odd e run) fits =
      let ih = run-fits run (resolve-IsB256 (i - 1) hs hs₁ sib e fits).1 in
      ((compress-IsB256 sib p.old, ih.0), ih.1)
  run-fits (right i p sib rest next hs hs₁ hs₂ even alone e run) fits =
      let ih = run-fits run (resolve-IsB256 (i + 1) hs hs₁ sib e fits).1 in
      ((compress-IsB256 p.old sib, ih.0), ih.1)
  run-fits (both i j p q rest next hs hs₁ even ej run) fits =
      let ih = run-fits run fits in ((compress-IsB256 p.old q.old, ih.0), ih.1)
