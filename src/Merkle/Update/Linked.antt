-- ===== src/Merkle/Update/Linked.antt =====
-- A write keeps the leaves one linked list, sorted by key and without gaps.
use zksync_os_zisk.Prelude.{
  ℕ, ◌≤◌, ◌<◌, ◌≡◌, ◌≢◌, refl, sym, ◌∙◌, ◌⊎◌, inl, inr, some, List, ◌==◌, ==→eq, ==→ne, Bool-cases,
  length, length-set, get_elem?-set_self, get_elem?-set_ne, lt-length_of_get_elem?, arith,
}
use zksync_os_zisk.Merkle.Hash.{B256}
use zksync_os_zisk.Merkle.Tree.{TreeLeaf, Store, HasLeaf, IsLinked}
use zksync_os_zisk.Merkle.Update.{WriteOp}
use zksync_os_zisk.Merkle.Update.Spec.{
  Written, updated, inserted, WrittenAll, no_operations, no_entries, next, store_update,
  store_insert, fresh, relinked, kept, store_insert-Origin, length-store_insert,
}

-- A leaf of the updated store stands where one of the old store stood, with its key and link.
kept_links :
    (s : Store) (i : ℕ) (leaf : TreeLeaf) (v : B256) (j : ℕ) (b : TreeLeaf)
    → HasLeaf s i leaf
    → HasLeaf (store_update s i leaf v) j b
    → (old : TreeLeaf) × HasLeaf s j old × (b.key ≡ old.key) × (b.next_index ≡ old.next_index)
kept_links s i leaf v j b h hb = elim (Bool-cases (j == i)) [
  | inl same ↦
      let e : some (record leaf { value = v }) ≡ some b =
        sym (get_elem?-set_self s i _ (lt-length_of_get_elem? s i leaf h))
        ∙ rw (==→eq _ _ same) at hb in
      (leaf, rw (==→eq _ _ same) h, ground arith, ground arith)
  | inr other ↦ (b, sym (get_elem?-set_ne s i j _ (λ e. ==→ne _ _ other (sym e))) ∙ hb, refl, refl)
]

update-IsLinked :
    (s : Store) (i : ℕ) (leaf : TreeLeaf) (v : B256)
    → HasLeaf s i leaf
    → IsLinked s
    → IsLinked (store_update s i leaf v)
update-IsLinked s i leaf v h linked = record {
  lower_guard = λ b hb. let (o, ho, ek, en) = old 0 b hb in ek ∙ linked.lower_guard o ho;
  closed = λ j b hb.
      let (o, ho, ek, en) = old j b hb in
      omega (arith, linked.closed j o ho, length-set s i (record leaf { value = v }));
  distinct = λ j k a b ha hb e.
      let (oa, hoa, eka, ena) = old j a ha in
      let (ob, hob, ekb, enb) = old k b hb in linked.distinct j k oa ob hoa hob (sym eka ∙ e ∙ ekb);
  gapless = λ j a succ ha hs k b hb.
      let (oa, hoa, eka, ena) = old j a ha in
      let (os, hos, eks, ens) = old a.next_index succ hs in
      let (ob, hob, ekb, enb) = old k b hb in
      let g = linked.gapless j oa os hoa (rw ena at hos) k ob hob in ground arith;
}
  where
    old :
        (j : ℕ) (b : TreeLeaf)
        → HasLeaf (store_update s i leaf v) j b
        → (o : TreeLeaf) × HasLeaf s j o × (b.key ≡ o.key) × (b.next_index ≡ o.next_index)
    old j b hb = kept_links s i leaf v j b h hb

-- The facts that an insertion starts from.
module _ (s : Store) (p : ℕ) (prev succ : TreeLeaf) (k v : B256) (linked : IsLinked s)
    (hp : HasLeaf s p prev) (hs : HasLeaf s prev.next_index succ) (below : prev.key < k)
    (above : k < succ.key) where
  -- A leaf of the new store is the inserted one, or has the key of the old leaf at its place.
  key_origin :
      (j : ℕ) (b : TreeLeaf)
      → HasLeaf (store_insert s p prev k v) j b
      → ((j ≡ length s) × (b.key ≡ k)) ⊎ ((o : TreeLeaf) × HasLeaf s j o × (b.key ≡ o.key))
  key_origin j b hb = elim (store_insert-Origin s p prev k v j b hp hb) [
    | fresh e ek ev en ↦ inl (e, ek)
    | relinked e ek ev en ↦ inr (prev, rw e hp, ek)
    | kept ne lt h ↦ inr (b, h, refl)
  ]

  -- No old leaf has the new key.
  old_key_ne : (j : ℕ) (o : TreeLeaf) → HasLeaf s j o → o.key ≢ k
  old_key_ne j o ho e = elim (linked.gapless p prev succ hp hs j o ho) [
    | inl q ↦ absurd (omega arith)
    | inr q ↦ absurd (omega arith)
  ]

  -- Between an old leaf that is not the predecessor and its successor there is no room for the key.
  no_room :
      (i : ℕ) (a t : TreeLeaf)
      → i ≢ p
      → HasLeaf s i a
      → HasLeaf s a.next_index t
      → (k ≤ a.key) ⊎ (t.key ≤ k)
  no_room i a t ne ha ht = elim (linked.gapless i a t ha ht p prev hp) [
    | inr q ↦ inr (omega arith)
    | inl q ↦ elim (linked.gapless p prev succ hp hs i a ha) [
      | inr r ↦ inl (omega arith)
      | inl r ↦ absurd (ne (linked.distinct i p a prev ha hp (omega arith)))
    ]
  ]

  insert_distinct :
      (i j : ℕ) (a b : TreeLeaf)
      → HasLeaf (store_insert s p prev k v) i a
      → HasLeaf (store_insert s p prev k v) j b
      → a.key ≡ b.key
      → i ≡ j
  insert_distinct i j a b ha hb e = elim (key_origin i a ha) [
    | inl (ei, ka) ↦ elim (key_origin j b hb) [
      | inl (ej, kb) ↦ ei ∙ sym ej
      | inr (o, ho, kb) ↦ absurd (old_key_ne j o ho (omega arith))
    ]
    | inr (o, ho, ka) ↦ elim (key_origin j b hb) [
      | inl (ej, kb) ↦ absurd (old_key_ne i o ho (omega arith))
      | inr (o', ho', kb) ↦ linked.distinct i j o o' ho ho' (sym ka ∙ e ∙ kb)
    ]
  ]

  -- The successor of an old link keeps its key.
  succ_key :
      (j : ℕ) (b : TreeLeaf)
      → j < length s
      → HasLeaf (store_insert s p prev k v) j b
      → (o : TreeLeaf) × HasLeaf s j o × (b.key ≡ o.key)
  succ_key j b lt hb = elim (key_origin j b hb) [ inl (e, kb) ↦ absurd (omega arith) | inr q ↦ q ]

  insert_gapless :
      (i : ℕ) (a t : TreeLeaf)
      → HasLeaf (store_insert s p prev k v) i a
      → HasLeaf (store_insert s p prev k v) a.next_index t
      → (j : ℕ) (b : TreeLeaf) → HasLeaf (store_insert s p prev k v) j b
      → (b.key ≤ a.key) ⊎ (t.key ≤ b.key)
  insert_gapless i a t ha ht j b hb = elim (store_insert-Origin s p prev k v i a hp ha) [
    | fresh e ek ev en ↦
        let (o, ho, kt) = succ_key a.next_index t (omega (arith, linked.closed p prev hp)) ht in
        let same : some o ≡ some succ = sym (rw en at ho) ∙ hs in
        elim (key_origin j b hb) [
          | inl (ej, kb) ↦ inl (omega arith)
          | inr (o', ho', kb) ↦ let g = linked.gapless p prev succ hp hs j o' ho' in ground arith
        ]
    | relinked e ek ev en ↦ elim (key_origin a.next_index t ht) [
      | inr (o, ho, kt) ↦ absurd (omega (arith, lt-length_of_get_elem? s a.next_index o ho))
      | inl (et, kt) ↦ elim (key_origin j b hb) [
        | inl (ej, kb) ↦ inr (omega arith)
        | inr (o', ho', kb) ↦ let g = linked.gapless p prev succ hp hs j o' ho' in ground arith
      ]
    ]
    | kept ne lt h ↦
        let (o, ho, kt) = succ_key a.next_index t (linked.closed i a h) ht in
        elim (key_origin j b hb) [
          | inl (ej, kb) ↦ let g = no_room i a o ne h ho in ground arith
          | inr (o', ho', kb) ↦ let g = linked.gapless i a o h ho j o' ho' in ground arith
        ]
  ]

  insert_closed :
      (j : ℕ) (b : TreeLeaf)
      → HasLeaf (store_insert s p prev k v) j b
      → b.next_index < length (store_insert s p prev k v)
  insert_closed j b hb = elim (store_insert-Origin s p prev k v j b hp hb) [
    | fresh e ek ev en ↦ omega (arith, linked.closed p prev hp, length-store_insert s p prev k v)
    | relinked e ek ev en ↦ omega (arith, length-store_insert s p prev k v)
    | kept ne lt h ↦ omega (arith, linked.closed j b h, length-store_insert s p prev k v)
  ]

  insert-IsLinked : IsLinked (store_insert s p prev k v)
  insert-IsLinked = record {
    lower_guard = λ b hb. elim (key_origin 0 b hb) [
      | inl (e, kb) ↦ absurd (omega (arith, lt-length_of_get_elem? s p prev hp))
      | inr (o, ho, kb) ↦ kb ∙ linked.lower_guard o ho
    ];
    closed = insert_closed;
    distinct = insert_distinct;
    gapless = insert_gapless;
  }

-- Every write operation keeps the tree linked.
pub Written-IsLinked :
    {op : WriteOp} {k v : B256} {s t : Store} → Written op k v s t → IsLinked s → IsLinked t
Written-IsLinked (updated i k v s leaf h e) linked = update-IsLinked s i leaf v h linked
Written-IsLinked (inserted p k v s prev succ hp hs below above) linked =
    insert-IsLinked s p prev succ k v linked hp hs below above

pub WrittenAll-IsLinked :
    {ops : List WriteOp} {entries : List (B256 × B256)} {s t : Store}
    → WrittenAll ops entries s t
    → IsLinked s
    → IsLinked t
WrittenAll-IsLinked (no_operations entries s) linked = linked
WrittenAll-IsLinked (no_entries op ops s) linked = linked
WrittenAll-IsLinked (next op ops k v entries s t u w rest) linked =
    WrittenAll-IsLinked rest (Written-IsLinked w linked)
