-- ===== src/Merkle/Update/Replace.antt =====
-- The witness leaves of `apply_writes` beside the whole tree, and a leaf written over in both.
use zksync_os_zisk.Prelude.{
  ℕ, zero, suc, ◌<◌, ◌≡◌, ◌≢◌, sym, ◌∙◌, inl, inr, Option, some, List, [], ◌∷◌, ◌==◌, ==→eq, ==→ne,
  Bool-cases, length, get_elem?, set, get_elem?-set_self, get_elem?-set_ne, lt-length_of_get_elem?,
  All, arith,
}
use zksync_os_zisk.Merkle.Tree.{TreeLeaf, Store, HasLeaf}
use zksync_os_zisk.Merkle.Update.{Writes, find_pos}
use zksync_os_zisk.Merkle.Update.Order.{
  Above, Absent, Above-position, indices, get_elem?-indices, indices-set,
}

-- The witness leaves `w` show part of the store `s`, which differs from `base` at most there.
pub record Tracks (base : Store) (w : Writes) (s : Store) : Type 0 where
  pub count : w.next_tree_index ≡ length s
  pub ascending : Above 0 (indices w.leaves)
  pub below : All (λ i. i < length s) (indices w.leaves)
  pub agree : (p i : ℕ) (leaf : TreeLeaf) → get_elem? w.leaves p ≡ some (i, leaf) → HasLeaf s i leaf
  pub indexed :
      (i p : ℕ)
      → find_pos i w.pos_of ≡ some p
      → (leaf : TreeLeaf) × (get_elem? w.leaves p ≡ some (i, leaf))
  pub untouched : (i : ℕ) → Absent i (indices w.leaves) → get_elem? s i ≡ get_elem? base i

Absent-ne : (is : List ℕ) (j p i : ℕ) → Absent j is → get_elem? is p ≡ some i → j ≢ i
Absent-ne [] j p i a h = absurd (cc)
Absent-ne (x ∷ is) j zero i (n, a) h = λ e. n (e ∙ ground arith)
Absent-ne (x ∷ is) j (suc p) i (n, a) h = Absent-ne is j p i a h

-- Writing a leaf over the one at its position, in the witness and in the store.
module _ (leaves : List (ℕ × TreeLeaf)) (s : Store) (pos i : ℕ) (old new : TreeLeaf)
    (ascending : Above 0 (indices leaves)) (read : get_elem? leaves pos ≡ some (i, old))
    (agree : (p i : ℕ) (leaf : TreeLeaf)
      → get_elem? leaves p ≡ some (i, leaf)
      → HasLeaf s i leaf) where
  pub set_agree :
      (p j : ℕ) (leaf : TreeLeaf)
      → get_elem? (set leaves pos (i, new)) p ≡ some (j, leaf)
      → HasLeaf (set s i new) j leaf
  set_agree p j leaf h = elim (Bool-cases (p == pos)) [
    | inl same ↦
        let e : ◌≡◌ {A = Option (ℕ × TreeLeaf)} (some (i, new)) (some (j, leaf)) =
          sym (
            get_elem?-set_self leaves pos (i, new)
              (lt-length_of_get_elem? leaves pos (i, old) read))
          ∙ rw (==→eq _ _ same) at h in
        let ei : j ≡ i = ground arith in
        rw ei (
          get_elem?-set_self s i new (lt-length_of_get_elem? s i old (agree pos i old read))
          ∙ ground arith)
    | inr other ↦
        let h' : get_elem? leaves p ≡ some (j, leaf) =
          sym (get_elem?-set_ne leaves pos p (i, new) (λ e. ==→ne _ _ other (sym e))) ∙ h in
        get_elem?-set_ne s i j new (λ e. ==→ne _ _ other (
          Above-position 0 (indices leaves) p pos i ascending
            (rw e (get_elem?-indices leaves p j leaf h'))
            (get_elem?-indices leaves pos i old read)))
        ∙ agree p j leaf h'
  ]

  pub set_indexed :
      (j p : ℕ)
      → ((leaf : TreeLeaf) × (get_elem? leaves p ≡ some (j, leaf)))
      → (leaf : TreeLeaf) × (get_elem? (set leaves pos (i, new)) p ≡ some (j, leaf))
  set_indexed j p (leaf, h) = elim (Bool-cases (p == pos)) [
    | inl same ↦
        let e : ◌≡◌ {A = Option (ℕ × TreeLeaf)} (some (j, leaf)) (some (i, old)) =
          sym h ∙ rw (==→eq _ _ same) read in
        (
          new,
          rw (==→eq _ _ same) (
              get_elem?-set_self leaves pos (i, new)
                (lt-length_of_get_elem? leaves pos (i, old) read)
              ∙ ground arith),
        )
    | inr other ↦ (leaf, get_elem?-set_ne leaves pos p (i, new) (λ e. ==→ne _ _ other (sym e)) ∙ h)
  ]

  pub set_untouched :
      (base : Store)
      → ((j : ℕ) → Absent j (indices leaves) → get_elem? s j ≡ get_elem? base j)
      → (j : ℕ) → Absent j (indices (set leaves pos (i, new)))
      → get_elem? (set s i new) j ≡ get_elem? base j
  set_untouched base same j absent =
      let absent' : Absent j (indices leaves) =
        rw (indices-set leaves pos i old new read) at absent in
      get_elem?-set_ne s i j new (λ e.
        Absent-ne (indices leaves) j pos i absent' (get_elem?-indices leaves pos i old read)
          (sym e))
      ∙ same j absent'
