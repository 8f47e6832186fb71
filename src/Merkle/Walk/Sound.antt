-- ===== src/Merkle/Walk/Sound.antt =====
-- One level of the walk against two trees: if the old hashes of the level above are those of a tree,
-- so are the old hashes of this level, and then the new hashes carry over to the level above.
use zksync_os_zisk.Prelude.{
  ℕ, suc, ◌+◌, ◌-◌, ◌*◌, ◌/◌, ◌≤◌, ◌≡◌, ap, sym, ◌∙◌, inl, List, [], ◌∷◌, All, arith,
}
use mathlib.Core.Path.{ap₂}
use zksync_os_zisk.Merkle.Hash.{
  B256, IsB256, Blake2s, blake2s_compress, node_preimage, compress_inj, UnlessCollision, and_then,
}
use zksync_os_zisk.Merkle.Tree.{up}
use zksync_os_zisk.Merkle.Update.Order.{Above, Above-le, Absent, Above-Absent, indices}
use zksync_os_zisk.Merkle.Walk.{Node}
use zksync_os_zisk.Merkle.Walk.Level.{LevelRun, finish, left, right, both}
use zksync_os_zisk.Merkle.Walk.Shape.{OldFits, Above_skip, resolve-IsB256}

-- The old, or the new, hashes of the nodes are those of a level of a tree.
abbrev pub OldOf : (ℕ → B256) → List Node → Type 0
OldOf nodes [] = Unit
OldOf nodes ((i, p) ∷ rest) = (p.old ≡ nodes i) × OldOf nodes rest

abbrev pub NewOf : (ℕ → B256) → List Node → Type 0
NewOf nodes [] = Unit
NewOf nodes ((i, p) ∷ rest) = (p.new ≡ nodes i) × NewOf nodes rest

-- Two levels agree from `lo` on, but at the listed positions.
abbrev pub Agrees : ℕ → (ℕ → B256) → (ℕ → B256) → List ℕ → Type 0
Agrees lo f g is = (j : ℕ) → lo ≤ j → Absent j is → g j ≡ f j

module _ ⦃H : Blake2s⦄ (f : ℕ → B256) where
  abbrev LevelSound : ℕ → List Node → List Node → Type 0
  LevelSound lo level next =
      OldOf f level
      × ((g : ℕ → B256) → Agrees (2 * lo) f g (indices level) → NewOf g level → NewOf (up g) next)

module _ ⦃H : Blake2s⦄ {Q : List ℕ → Type 0} (count depth : ℕ) (f : ℕ → B256)
    (known : (i : ℕ) → Q (node_preimage (f (2 * i)) (f (2 * i + 1))))
    (f_fits : (i : ℕ) → IsB256 (f i)) where
  pub run_sound :
      {level next : List Node} {hs hs' : List B256} (lo : ℕ)
      → LevelRun count depth level hs next hs'
      → Above (2 * lo) (indices level)
      → OldFits level
      → All IsB256 hs
      → OldOf (up f) next
      → UnlessCollision Q (LevelSound f lo level next)
  run_sound lo (finish hs) a old fits e = inl (tt, λ g agrees new. tt)
  run_sound lo (left i p sib rest next hs hs₁ hs₂ odd r run) (h, a) (po, old) fits (e, es) =
      let (sib_fits, fits₁) = resolve-IsB256 count depth (i - 1) hs hs₁ sib r fits in
      let k = i / 2 in
      let ei : i ≡ 2 * k + 1 = omega arith in
      and_then
        (compress_inj sib p.old _ _ (known k) sib_fits po (f_fits (2 * k)) (f_fits (2 * k + 1)) e)
        λ heads.
          and_then (run_sound (suc k) run (Above-le (indices rest) (omega arith) a) old fits₁ es)
            λ ih. inl (
              (heads.1 ∙ ap f (sym ei), ih.0),
              λ g agrees new.
                  let sib_new : sib ≡ g (2 * k) =
                    heads.0
                    ∙ sym (
                        agrees (2 * k) (omega arith)
                          (omega arith, Above-Absent (2 * k) (indices rest) (omega arith) a)) in
                  (
                    ap₂ blake2s_compress sib_new (new.0 ∙ ap g ei),
                    ih.1 g (λ j hj aj. agrees j (omega arith) (omega arith, aj)) new.1,
                  ),
            )
  run_sound lo (right i p sib rest next hs hs₁ hs₂ even alone r run) (h, a) (po, old) fits (e, es) =
      let (sib_fits, fits₁) = resolve-IsB256 count depth (i + 1) hs hs₁ sib r fits in
      let k = i / 2 in
      let ei : i ≡ 2 * k = omega arith in
      let skip = Above_skip i rest alone a in
      and_then
        (compress_inj p.old sib _ _ (known k) po sib_fits (f_fits (2 * k)) (f_fits (2 * k + 1)) e)
        λ heads.
          and_then (run_sound (suc k) run (Above-le (indices rest) (omega arith) skip) old fits₁ es)
            λ ih. inl (
              (heads.0 ∙ ap f (sym ei), ih.0),
              λ g agrees new.
                  let sib_new : sib ≡ g (2 * k + 1) =
                    heads.1
                    ∙ sym (
                        agrees (2 * k + 1) (omega arith) (
                          omega arith,
                          Above-Absent (2 * k + 1) (indices rest) (omega arith) skip,
                        )) in
                  (
                    ap₂ blake2s_compress (new.0 ∙ ap g ei) sib_new,
                    ih.1 g (λ j hj aj. agrees j (omega arith) (omega arith, aj)) new.1,
                  ),
            )
  run_sound lo (both i j p q rest next hs hs₁ even ej run) (h, (l, a)) (po, (qo, old)) fits
        (e, es) =
      let k = i / 2 in
      let ei : i ≡ 2 * k = omega arith in
      let ej' : j ≡ 2 * k + 1 = omega arith in
      and_then
        (compress_inj p.old q.old _ _ (known k) po qo (f_fits (2 * k)) (f_fits (2 * k + 1)) e)
        λ heads.
          and_then (run_sound (suc k) run (Above-le (indices rest) (omega arith) a) old fits es)
            λ ih. inl (
              (heads.0 ∙ ap f (sym ei), (heads.1 ∙ ap f (sym ej'), ih.0)),
              λ g agrees new. (
                ap₂ blake2s_compress (new.0 ∙ ap g ei) (new.1.0 ∙ ap g ej'),
                ih.1 g (λ m hm am. agrees m (omega arith) (omega arith, (omega arith, am))) new.1.1,
              ),
            )
