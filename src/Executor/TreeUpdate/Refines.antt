-- ===== src/Executor/TreeUpdate/Refines.antt =====
-- What a batch that passes `verify_tree_update` of lib/src/executor/verify.rs does to the tree.
use zksync_os_zisk.Prelude.{
  ℕ, ◌+◌, ◌^◌, ◌<◌, ◌≡◌, refl, ap, sym, ◌∙◌, inl, Option, none, some, [], ◌∷◌, ◌==◌, ==→eq, length,
  Result, ok, err, guard-eq-ok, >>-eq-ok, ok_inj, arith,
}
use zksync_os_zisk.Merkle.Hash.{B256, Blake2s, UnlessCollision, and_then}
use zksync_os_zisk.Merkle.Tree.{TreeHashed, Store, IsLinked, tree_root, value_of}
use zksync_os_zisk.Merkle.Proof.Sound.{StoreFits}
use zksync_os_zisk.Merkle.Update.{BatchTreeUpdate, Panic}
use zksync_os_zisk.Merkle.Walk.{apply}
use zksync_os_zisk.Merkle.Walk.Refines.{IsBatchTreeUpdate, apply_refines}
use zksync_os_zisk.Types.{BatchMeta}
use zksync_os_zisk.Executor.TreeUpdate.{
  Entries, lookup, distinct_keys, check_entries, verify_update, verify_optional, verify_tree_update,
  or_panic, length_mismatch, duplicate_keys, write_count_mismatch, leaf_count_mismatch,
  writes_without_update,
}
use zksync_os_zisk.Executor.TreeUpdate.Writes.{
  distinct_keys-Distinct, check_entries-WrittenIn, lookup-entries, or_else, overlay-entries,
}

or_panic-eq-ok : {A : Type 0} (r : Result Panic A) {a : A} → or_panic r ≡ ok a → r ≡ ok a
or_panic-eq-ok (ok b) e = ap ok (ok_inj e)
or_panic-eq-ok (err p) e = absurd (cc)

nothing_written : (writes : Entries) → length writes ≡ 0 → (j : B256) → lookup j writes ≡ none
unfolding lookup
nothing_written [] e j = refl
nothing_written (x ∷ writes) e j = absurd (omega arith)

-- The update, where there is one, has values in the range of their types and room in the tree.
abbrev pub UpdateFits : Option BatchTreeUpdate → Store → Type 0
UpdateFits none s = Unit
UpdateFits (some u) s = IsBatchTreeUpdate u × (length s + length u.operations < 2 ^ 64)

module _ ⦃H : Blake2s⦄ where
  -- A linked tree that holds the writes over the values of `s`, of that root and leaf count.
  abbrev pub Written : Store → Entries → B256 → ℕ → Type 0
  Written s writes root n =
      (s' : Store) × (root ≡ tree_root s')
      × (n ≡ length s')
      × IsLinked s'
      × ((j : B256) → value_of s' j ≡ or_else (lookup j writes) (value_of s j))

  verify_update_refines :
      (meta : BatchMeta) (u : BatchTreeUpdate) (writes : Entries) (s : Store) {root : B256} {n : ℕ}
      → UpdateFits (some u) s
      → StoreFits s
      → IsLinked s
      → tree_root s ≡ meta.tree_root_before
      → length s ≡ meta.leaf_count_before
      → verify_update meta u writes ≡ ok (root, n)
      → UnlessCollision (TreeHashed s) (Written s writes root n)
  unfolding verify_update
  verify_update_refines meta u writes s {root} {n} (typed, room) fits linked old count e =
      let (e1, r1) = guard-eq-ok (length u.operations == length u.entries) length_mismatch _ e in
      let (e2, r2) =
        guard-eq-ok (length (distinct_keys u.entries) == length u.entries) duplicate_keys _ r1 in
      let (e3, r3) = guard-eq-ok (length writes == length u.entries) write_count_mismatch _ r2 in
      let (e4, r4) = >>-eq-ok (check_entries writes u.entries) _ r3 in
      let (e5, r5) =
        guard-eq-ok (u.leaf_count_before == meta.leaf_count_before) leaf_count_mismatch _ r4 in
      let ran : apply u (tree_root s) ≡ ok (root, n) =
        ap (apply u) old ∙ or_panic-eq-ok (apply u meta.tree_root_before) r5 in
      let distinct = distinct_keys-Distinct u.entries (==→eq _ _ e2) in
      let same =
        lookup-entries writes u.entries distinct (==→eq _ _ e3)
          (check_entries-WrittenIn writes u.entries e4) in
      and_then (apply_refines u s root n typed fits linked (count ∙ sym (==→eq _ _ e5)) room ran)
        λ (s', er, en, linked', values). inl (
          s',
          er,
          en,
          linked',
          λ j.
              values j
              ∙ overlay-entries u.operations u.entries (value_of s) (==→eq _ _ e1) distinct j
              ∙ ap (λ o. or_else o (value_of s j)) (sym (same j)),
        )

  optional_refines :
      (meta : BatchMeta) (o : Option BatchTreeUpdate) (writes : Entries) (s : Store) {root : B256}
      {n : ℕ}
      → UpdateFits o s
      → StoreFits s
      → IsLinked s
      → tree_root s ≡ meta.tree_root_before
      → length s ≡ meta.leaf_count_before
      → verify_optional meta writes o ≡ ok (root, n)
      → UnlessCollision (TreeHashed s) (Written s writes root n)
  unfolding verify_optional
  optional_refines meta (some u) writes s room fits linked old count e =
      verify_update_refines meta u writes s room fits linked old count e
  optional_refines meta none writes s room fits linked old count e =
      let (empty, r) = guard-eq-ok (length writes == 0) writes_without_update _ e in
      let same = ok_inj r in
      inl (
        s,
        sym (ap (λ (p : B256 × ℕ). p.0) same) ∙ sym old,
        sym (ap (λ (p : B256 × ℕ). p.1) same) ∙ sym count,
        linked,
        λ j. rw (nothing_written writes (==→eq _ _ empty) j) refl,
      )

  -- Let a linked tree `s` have the root and leaf count that the batch was committed with before it,
  -- and leaves in the range of their types; let the tree update, if there is one, have leaves and
  -- hashes in that range, and at most 2 ^ 64 - 1 operations together with the leaves of `s`. If
  -- `verify_tree_update` returns a root and a leaf count, then, unless a second preimage of a byte
  -- string that the tree `s` hashes is at hand, they are those of a linked tree that holds the value
  -- of each write of the execution under its key, and what `s` held under any other key.
  pub verify_tree_update_refines :
      (meta : BatchMeta) (writes : Entries) (s : Store) (root : B256) (n : ℕ)
      → UpdateFits meta.tree_update s
      → StoreFits s
      → IsLinked s
      → tree_root s ≡ meta.tree_root_before
      → length s ≡ meta.leaf_count_before
      → verify_tree_update meta writes ≡ ok (root, n)
      → UnlessCollision (TreeHashed s) (
          (s' : Store) × (root ≡ tree_root s')
          × (n ≡ length s')
          × IsLinked s'
          × ((j : B256) → value_of s' j ≡ or_else (lookup j writes) (value_of s j)))
  unfolding verify_tree_update
  verify_tree_update_refines meta writes s root n room fits linked old count e =
      optional_refines meta meta.tree_update writes s room fits linked old count e
