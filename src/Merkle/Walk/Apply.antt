-- ===== src/Merkle/Walk/Apply.antt =====
-- A run of `BatchTreeUpdate::apply` (lib/src/merkle.rs) that does not panic, taken apart.
use zksync_os_zisk.Prelude.{
  ℕ, ◌≡◌, inl, inr, true, List, ◌==◌, ==→eq, Bool-cases, Result, ok, guard, ◌>>◌, Result-cases,
  arith,
}
use zksync_os_zisk.Merkle.Hash.{B256, Blake2s}
use zksync_os_zisk.Merkle.Update.{
  BatchTreeUpdate, Panic, old_root_mismatch, Writes, start_writes, write_all, sort_by_index,
  indices_increase, indices_below,
}
use zksync_os_zisk.Merkle.Walk.{HashPair, Node, leaf_nodes, walk_levels, single_root, apply}

last_step :
    (roots : HashPair) (expected root : B256) (n count : ℕ)
    → ◌≡◌ {A = Result Panic (B256 × ℕ)}
        (guard (roots.old == expected) old_root_mismatch >> ok (roots.new, n))
        (ok (root, count))
    → (roots.old ≡ expected) × (roots.new ≡ root) × (n ≡ count)
last_step roots expected root n count e = elim (Bool-cases (roots.old == expected)) [
  | inl same ↦ (==→eq _ _ same, ground arith, ground arith)
  | inr other ↦ absurd (ground arith)
]

module _ ⦃H : Blake2s⦄ where
  -- What `apply` has computed when it does not panic.
  pub record ApplyRun (u : BatchTreeUpdate) (expected root : B256) (count : ℕ) : Type 0 where
    pub increase : indices_increase u.sorted_leaves ≡ true
    pub below : indices_below u.leaf_count_before u.sorted_leaves ≡ true
    pub w : Writes
    pub writes : write_all u.operations u.entries (start_writes u) ≡ ok w
    pub level : List Node
    pub leaves : leaf_nodes u.leaf_count_before u.sorted_leaves (sort_by_index w.leaves) ≡ ok level
    pub top : List Node
    pub rest : List B256
    pub walked : walk_levels u.leaf_count_before 64 0 level u.intermediate_hashes ≡ ok (top, rest)
    pub roots : HashPair
    pub single : single_root top rest ≡ ok roots
    pub old_root : roots.old ≡ expected
    pub new_root : roots.new ≡ root
    pub new_count : w.next_tree_index ≡ count

  checks :
      (u : BatchTreeUpdate) (expected root : B256) (count : ℕ)
      → apply u expected ≡ ok (root, count)
      → (indices_increase u.sorted_leaves ≡ true)
        × (indices_below u.leaf_count_before u.sorted_leaves ≡ true)
  unfolding apply
  checks u expected root count e = elim (Bool-cases (indices_increase u.sorted_leaves)) [
    | inr bad ↦ absurd (cc (rw bad at e))
    | inl good ↦ elim (Bool-cases (indices_below u.leaf_count_before u.sorted_leaves)) [
      | inr bad ↦ absurd (cc (rw (good, bad) at e))
      | inl good' ↦ (good, good')
    ]
  ]

  pub walk_run :
      (u : BatchTreeUpdate) (expected root : B256) (count : ℕ)
      → apply u expected ≡ ok (root, count)
      → ApplyRun u expected root count
  unfolding apply
  walk_run u expected root count e =
      let (good, good') = checks u expected root count e in
      elim (Result-cases (write_all u.operations u.entries (start_writes u))) [
        | inr (x, r) ↦ absurd (cc (rw (good, good', r) at e))
        | inl (w, r) ↦
            elim (Result-cases
              (leaf_nodes u.leaf_count_before u.sorted_leaves (sort_by_index w.leaves))) [
                | inr (x, r₁) ↦ absurd (cc (rw (good, good', r, r₁) at e))
                | inl (level, r₁) ↦
                    elim (Result-cases
                      (walk_levels u.leaf_count_before 64 0 level u.intermediate_hashes)) [
                        | inr (x, r₂) ↦ absurd (cc (rw (good, good', r, r₁, r₂) at e))
                        | inl ((top, rest), r₂) ↦ elim (Result-cases (single_root top rest)) [
                          | inr (x, r₃) ↦ absurd (cc (rw (good, good', r, r₁, r₂, r₃) at e))
                          | inl (roots, r₃) ↦
                              let (eo, en, ec) =
                                last_step roots expected root w.next_tree_index count
                                  (rw (good, good', r, r₁, r₂, r₃) at e) in
                              record {
                                increase = good;
                                below = good';
                                w = w;
                                writes = r;
                                level = level;
                                leaves = r₁;
                                top = top;
                                rest = rest;
                                walked = r₂;
                                roots = roots;
                                single = r₃;
                                old_root = eo;
                                new_root = en;
                                new_count = ec;
                              }
                        ]
                      ]
              ]
      ]
