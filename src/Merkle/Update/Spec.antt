-- ===== src/Merkle/Update/Spec.antt =====
-- The write operations on the whole tree: what `apply_writes` means.
use zksync_os_zisk.Prelude.{
  ℕ, ◌+◌, ◌<◌, ◌≡◌, ◌≢◌, sym, ◌∙◌, some, List, [], ◌∷◌, ◌++◌, ◌==◌, ==→eq, ==→ne, ltb, ltb→lt,
  ltb→le, Bool-cases, inl, inr, length, get_elem?, set, length-set, length-append,
  get_elem?-set_self, get_elem?-set_ne, get_elem?-append_left, get_elem?-append_end,
  lt-length_of_get_elem?, arith,
}
use zksync_os_zisk.Merkle.Hash.{B256}
use zksync_os_zisk.Merkle.Tree.{TreeLeaf, Store, HasLeaf}
use zksync_os_zisk.Merkle.Update.{WriteOp, update, insert}

abbrev pub store_update : Store → ℕ → TreeLeaf → B256 → Store
store_update s i leaf v = set s i (record leaf { value = v })

abbrev pub inserted_leaf : TreeLeaf → B256 → B256 → TreeLeaf
inserted_leaf prev k v = record { key = k; value = v; next_index = prev.next_index }

-- The new leaf goes to the end of the store, and its predecessor points there.
abbrev pub store_insert : Store → ℕ → TreeLeaf → B256 → B256 → Store
store_insert s p prev k v =
    set (s ++ inserted_leaf prev k v ∷ []) p (record prev { next_index = length s })

pub data Written : WriteOp → B256 → B256 → Store → Store → Type 0 where
  updated :
      (i : ℕ) (k v : B256) (s : Store) (leaf : TreeLeaf)
      → HasLeaf s i leaf
      → leaf.key ≡ k
      → Written (update i) k v s (store_update s i leaf v)
  inserted :
      (p : ℕ) (k v : B256) (s : Store) (prev succ : TreeLeaf)
      → HasLeaf s p prev
      → HasLeaf s prev.next_index succ
      → prev.key < k
      → k < succ.key
      → Written (insert p) k v s (store_insert s p prev k v)

-- The operations with their entries, up to the end of the shorter list.
pub data WrittenAll : List WriteOp → List (B256 × B256) → Store → Store → Type 0 where
  no_operations : (entries : List (B256 × B256)) (s : Store) → WrittenAll [] entries s s
  no_entries : (op : WriteOp) (ops : List WriteOp) (s : Store) → WrittenAll (op ∷ ops) [] s s
  next :
      (op : WriteOp) (ops : List WriteOp) (k v : B256) (entries : List (B256 × B256))
      (s t u : Store)
      → Written op k v s t
      → WrittenAll ops entries t u
      → WrittenAll (op ∷ ops) ((k, v) ∷ entries) s u

-- Where a leaf of the store after an insertion comes from.
pub data Origin (s : Store) (p : ℕ) (prev : TreeLeaf) (k v : B256) (j : ℕ) (b : TreeLeaf)
    : Type 0 where
  fresh :
      j ≡ length s
      → b.key ≡ k
      → b.value ≡ v
      → b.next_index ≡ prev.next_index
      → Origin s p prev k v j b
  relinked :
      j ≡ p
      → b.key ≡ prev.key
      → b.value ≡ prev.value
      → b.next_index ≡ length s
      → Origin s p prev k v j b
  kept : j ≢ p → j < length s → HasLeaf s j b → Origin s p prev k v j b

pub store_insert-Origin :
    (s : Store) (p : ℕ) (prev : TreeLeaf) (k v : B256) (j : ℕ) (b : TreeLeaf)
    → HasLeaf s p prev
    → HasLeaf (store_insert s p prev k v) j b
    → Origin s p prev k v j b
store_insert-Origin s p prev k v j b hp hb = elim (Bool-cases (j == p)) [
  | inl same ↦
      let e : some (record prev { next_index = length s }) ≡ some b =
        sym (get_elem?-set_self pushed p _ in_range) ∙ rw (==→eq _ _ same) at hb in
      relinked (==→eq _ _ same) (ground arith) (ground arith) (ground arith)
  | inr other ↦
      let hb' : get_elem? pushed j ≡ some b =
        sym (get_elem?-set_ne pushed p j _ (λ e. ==→ne _ _ other (sym e))) ∙ hb in
      elim (Bool-cases (ltb j (length s))) [
        | inl old ↦
            kept (==→ne _ _ other) (ltb→lt _ _ old)
              (sym (get_elem?-append_left s _ j (ltb→lt _ _ old)) ∙ hb')
        | inr new ↦
            let at_end : j ≡ length s = omega (
              arith,
              ltb→le _ _ new,
              length-append s (inserted_leaf prev k v ∷ []),
              lt-length_of_get_elem? pushed j b hb',
            ) in
            let e : some (inserted_leaf prev k v) ≡ some b =
              sym (get_elem?-append_end s _) ∙ rw at_end at hb' in
            fresh at_end (ground arith) (ground arith) (ground arith)
      ]
]
  where
    pushed : Store
    pushed = s ++ inserted_leaf prev k v ∷ []

    in_range : p < length pushed
    in_range =
        omega
          (arith, lt-length_of_get_elem? s p prev hp, length-append s (inserted_leaf prev k v ∷ []))

pub length-store_insert :
    (s : Store) (p : ℕ) (prev : TreeLeaf) (k v : B256)
    → length (store_insert s p prev k v) ≡ length s + 1
length-store_insert s p prev k v = omega (
  arith,
  length-set (s ++ inserted_leaf prev k v ∷ []) p (record prev { next_index = length s }),
  length-append s (inserted_leaf prev k v ∷ []),
)
