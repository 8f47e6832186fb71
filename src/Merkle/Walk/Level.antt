-- ===== src/Merkle/Walk/Level.antt =====
-- One level of the walk as a family of runs, and what a run keeps: the order of the indices, and which
-- positions it touches.
use zksync_os_zisk.Prelude.{
  ℕ, ◌+◌, ◌-◌, ◌%◌, ◌≡◌, ◌≢◌, subst, ◌&&◌, inl, inr, List, [], ◌∷◌, ◌==◌, ==→eq, ==→ne, Bool-cases,
  ok, Result-cases, arith,
}
use zksync_os_zisk.Merkle.Hash.{B256, Blake2s}
use zksync_os_zisk.Merkle.Walk.{
  HashPair, Node, resolve_offpath_sibling, left_parent, right_parent, joint_parent, lone_node,
  walk_level,
}

-- The next node, if there is one, is not the right sibling of `i`.
abbrev pub NotNext : ℕ → List Node → Type 0
NotNext i [] = Unit
NotNext i ((j, q) ∷ rest) = j ≢ i + 1

module _ ⦃H : Blake2s⦄ (count depth : ℕ) where
  pub data LevelRun : List Node → List B256 → List Node → List B256 → Type 0 where
    finish : (hs : List B256) → LevelRun [] hs [] hs
    left :
        (i : ℕ) (p : HashPair) (sib : B256) (rest next : List Node) (hs hs₁ hs₂ : List B256)
        → i % 2 ≡ 1
        → resolve_offpath_sibling count depth (i - 1) hs ≡ ok (sib, hs₁)
        → LevelRun rest hs₁ next hs₂
        → LevelRun ((i, p) ∷ rest) hs (left_parent i sib p ∷ next) hs₂
    right :
        (i : ℕ) (p : HashPair) (sib : B256) (rest next : List Node) (hs hs₁ hs₂ : List B256)
        → i % 2 ≡ 0
        → NotNext i rest
        → resolve_offpath_sibling count depth (i + 1) hs ≡ ok (sib, hs₁)
        → LevelRun rest hs₁ next hs₂
        → LevelRun ((i, p) ∷ rest) hs (right_parent i p sib ∷ next) hs₂
    both :
        (i j : ℕ) (p q : HashPair) (rest next : List Node) (hs hs₁ : List B256)
        → i % 2 ≡ 0
        → j ≡ i + 1
        → LevelRun rest hs next hs₁
        → LevelRun ((i, p) ∷ (j, q) ∷ rest) hs (joint_parent i p q ∷ next) hs₁

  -- A node without its sibling, then the rest of the level.
  lone_run :
      (i : ℕ) (p : HashPair) (n : Node) (rest next : List Node) (hs hs₁ hs₂ : List B256)
      → (i % 2 ≡ 0 → NotNext i rest)
      → lone_node count depth i p hs ≡ ok (n, hs₁)
      → LevelRun rest hs₁ next hs₂
      → LevelRun ((i, p) ∷ rest) hs (n ∷ next) hs₂
  unfolding lone_node
  lone_run i p n rest next hs hs₁ hs₂ alone e run = elim (Bool-cases (i % 2 == 1)) [
    | inl odd ↦ elim (Result-cases (resolve_offpath_sibling count depth (i - 1) hs)) [
      | inr (x, r) ↦ absurd (ground arith)
      | inl ((sib, hs'), r) ↦
          let en : left_parent i sib p ≡ n = ground arith in
          let eh : hs' ≡ hs₁ = ground arith in
          subst (λ m. LevelRun ((i, p) ∷ rest) hs (m ∷ next) hs₂) en
            (left i p sib rest next hs hs₁ hs₂ (==→eq _ _ odd) (rw eh at r) run)
    ]
    | inr even ↦ elim (Result-cases (resolve_offpath_sibling count depth (i + 1) hs)) [
      | inr (x, r) ↦ absurd (ground arith)
      | inl ((sib, hs'), r) ↦
          let en : right_parent i p sib ≡ n = ground arith in
          let eh : hs' ≡ hs₁ = ground arith in
          let z : i % 2 ≡ 0 = omega (arith, ==→ne _ _ even) in
          subst (λ m. LevelRun ((i, p) ∷ rest) hs (m ∷ next) hs₂) en
            (right i p sib rest next hs hs₁ hs₂ z (alone z) (rw eh at r) run)
    ]
  ]

  pub run_of :
      (level next : List Node) (hs hs' : List B256)
      → walk_level count depth level hs ≡ ok (next, hs')
      → LevelRun level hs next hs'
  unfolding walk_level
  run_of [] next hs hs' e =
      let en : [] ≡ next = ground arith in
      let eh : hs ≡ hs' = ground arith in
      subst (λ x. LevelRun [] hs x hs') en (subst (λ x. LevelRun [] hs [] x) eh (finish hs))
  run_of ((i, p) ∷ []) next hs hs' e = elim (Result-cases (lone_node count depth i p hs)) [
    | inr (x, r) ↦ absurd (ground arith)
    | inl ((n, hs₁), r) ↦
        let en : n ∷ [] ≡ next = ground arith in
        let eh : hs₁ ≡ hs' = ground arith in
        subst (λ x. LevelRun ((i, p) ∷ []) hs x hs') en
          (lone_run i p n [] [] hs hs₁ hs' (λ z. tt) r
            (subst (λ x. LevelRun [] hs₁ [] x) eh (finish hs₁)))
  ]
  run_of ((i, p) ∷ (j, q) ∷ level) next hs hs' e = elim (Bool-cases (i % 2 == 0 && j == i + 1)) [
    | inl pair ↦ elim (Result-cases (walk_level count depth level hs)) [
      | inr (x, r) ↦ absurd (ground arith)
      | inl ((above, hs₁), r) ↦
          let en : joint_parent i p q ∷ above ≡ next = ground arith in
          let eh : hs₁ ≡ hs' = ground arith in
          subst (λ x. LevelRun ((i, p) ∷ (j, q) ∷ level) hs x hs') en
            (both i j p q level above hs hs' (ground arith) (ground arith)
              (run_of level above hs hs' (rw eh at r)))
    ]
    | inr lone ↦ elim (Result-cases (lone_node count depth i p hs)) [
      | inr (x, r) ↦ absurd (ground arith)
      | inl ((n, hs₁), r) ↦ elim (Result-cases (walk_level count depth ((j, q) ∷ level) hs₁)) [
        | inr (x, r') ↦ absurd (ground arith)
        | inl ((above, hs₂), r') ↦
            let en : n ∷ above ≡ next = ground arith in
            let eh : hs₂ ≡ hs' = ground arith in
            subst (λ x. LevelRun ((i, p) ∷ (j, q) ∷ level) hs x hs') en
              (lone_run i p n ((j, q) ∷ level) above hs hs₁ hs' (λ z w. ground arith) r
                (run_of ((j, q) ∷ level) above hs₁ hs' (rw eh at r')))
      ]
    ]
  ]
