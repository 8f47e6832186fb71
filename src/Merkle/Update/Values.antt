-- ===== src/Merkle/Update/Values.antt =====
-- What a batch of writes does to the values that the tree holds under the keys.
use mathlib.Core.Path.{fun_ext}
use zksync_os_zisk.Prelude.{
  ℕ, zero, suc, ◌≡◌, ◌≢◌, refl, ap, sym, ◌∙◌, ◌⊎◌, inl, inr, Option, some, List, [], ◌∷◌, ◌++◌,
  ◌==◌, ==→eq, ==→ne, Bool-cases, if◌then◌else◌, length, set, get_elem?-set_self, get_elem?-set_ne,
  get_elem?-append_left, get_elem?-append_end, lt-length_of_get_elem?, arith,
}
use zksync_os_zisk.Merkle.Hash.{B256}
use zksync_os_zisk.Merkle.Tree.{TreeLeaf, Store, HasLeaf, IsLinked, value_of, value_of-eq-some}
use zksync_os_zisk.Merkle.Update.{WriteOp}
use zksync_os_zisk.Merkle.Update.Spec.{
  Written, updated, inserted, WrittenAll, no_operations, no_entries, next, store_update,
  store_insert, inserted_leaf,
}
use zksync_os_zisk.Merkle.Update.Linked.{Written-IsLinked}

-- The values after the entries that have an operation, the last write to a key winning.
unfoldable pub overlay :
    List WriteOp → List (B256 × B256) → (B256 → Option B256) → B256 → Option B256
overlay [] entries values = values
overlay (op ∷ ops) [] values = values
overlay (op ∷ ops) ((k, v) ∷ entries) values =
    overlay ops entries (λ j. if k == j then some v else values j)

-- A new leaf with the key of the old one changes at most what is held under that key.
value_of-set :
    (s : Store) (i : ℕ) (leaf new : TreeLeaf) (j : B256)
    → HasLeaf s i leaf
    → new.key ≡ leaf.key
    → (new.value ≡ leaf.value) ⊎ (j ≢ leaf.key)
    → value_of (set s i new) j ≡ value_of s j
unfolding value_of
value_of-set [] i leaf new j h e c = refl
value_of-set (x ∷ s) zero leaf new j h e c = ground arith
value_of-set (x ∷ s) (suc i) leaf new j h e c = ground (arith, value_of-set s i leaf new j h e c)

value_of-append :
    (s : Store) (x : TreeLeaf) (j : B256) → x.key ≢ j → value_of (s ++ x ∷ []) j ≡ value_of s j
unfolding value_of
value_of-append [] x j ne = ground arith
value_of-append (y ∷ s) x j ne = ground (arith, value_of-append s x j ne)

-- A write sets its own key.
value_of-Written_self :
    {op : WriteOp} {k v : B256} {s t : Store}
    → Written op k v s t
    → IsLinked t
    → value_of t k ≡ some v
value_of-Written_self (updated i k v s leaf h e) linked = rw (← e) (
    value_of-eq-some (store_update s i leaf v) i (record leaf { value = v }) linked.distinct
      (get_elem?-set_self s i _ (lt-length_of_get_elem? s i leaf h)))
value_of-Written_self (inserted p k v s prev succ hp hs below above) linked =
    value_of-eq-some (store_insert s p prev k v) (length s) (inserted_leaf prev k v) linked.distinct
      (get_elem?-set_ne (s ++ inserted_leaf prev k v ∷ []) p (length s) _
          (omega (arith, lt-length_of_get_elem? s p prev hp))
        ∙ get_elem?-append_end s (inserted_leaf prev k v))

-- A write leaves the other keys alone.
value_of-Written_ne :
    {op : WriteOp} {k v : B256} {s t : Store} (j : B256)
    → Written op k v s t
    → j ≢ k
    → value_of t j ≡ value_of s j
value_of-Written_ne j (updated i k v s leaf h e) ne =
    value_of-set s i leaf (record leaf { value = v }) j h refl (inr (λ q. ne (q ∙ e)))
value_of-Written_ne j (inserted p k v s prev succ hp hs below above) ne =
    value_of-set (s ++ inserted_leaf prev k v ∷ []) p prev (record prev { next_index = length s }) j
      (get_elem?-append_left s (inserted_leaf prev k v ∷ []) p (lt-length_of_get_elem? s p prev hp)
        ∙ hp)
      refl (inl refl)
    ∙ value_of-append s (inserted_leaf prev k v) j (λ q. ne (sym q))

value_of-Written :
    {op : WriteOp} {k v : B256} {s t : Store} (j : B256)
    → Written op k v s t
    → IsLinked s
    → value_of t j ≡ (if k == j then some v else value_of s j)
value_of-Written {k} j w linked = elim (Bool-cases (k == j)) [
  | inl same ↦ rw same (rw (← ==→eq _ _ same) (value_of-Written_self w (Written-IsLinked w linked)))
  | inr other ↦ rw other (value_of-Written_ne j w (λ e. ==→ne _ _ other (sym e)))
]

-- After the writes, the tree holds under each key the last value written to it, and what it held
-- before where nothing was written.
pub value_of-WrittenAll :
    {ops : List WriteOp} {entries : List (B256 × B256)} {s t : Store}
    → WrittenAll ops entries s t
    → IsLinked s
    → (j : B256) → value_of t j ≡ overlay ops entries (value_of s) j
unfolding overlay
value_of-WrittenAll (no_operations entries s) linked j = refl
value_of-WrittenAll (no_entries op ops s) linked j = refl
value_of-WrittenAll (next op ops k v entries s t u w rest) linked j =
    value_of-WrittenAll rest (Written-IsLinked w linked) j
    ∙ ap (λ f. overlay ops entries f j) (fun_ext (λ i. value_of-Written i w linked))
