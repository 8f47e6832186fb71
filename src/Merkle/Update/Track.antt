-- ===== src/Merkle/Update/Track.antt =====
-- `apply_writes` on the witness leaves follows the write operations on the whole tree.
use zksync_os_zisk.Prelude.{
  ℕ, ◌+◌, ◌%◌, ◌^◌, ◌≤◌, ◌<◌, ◌≡◌, ◌≢◌, sym, subst, ◌∙◌, inl, inr, Option, some, List, [], ◌∷◌,
  ◌++◌, ◌==◌, ==→eq, ltb, ltb→lt, ltb→le, Bool-cases, length, length-append, length-set, get_elem?,
  set, get_elem?-append_left, get_elem?-append_end, lt-length_of_get_elem?, get_elem?-append_ne, ok,
  >>=-eq-ok, arith,
}
use zksync_os_zisk.Merkle.Hash.{B256}
use zksync_os_zisk.Merkle.Tree.{TreeLeaf, Store, HasLeaf}
use zksync_os_zisk.Merkle.Update.{
  WriteOp, update, insert, Writes, find_pos, write_update, write_insert, write_one, write_all,
}
use zksync_os_zisk.Merkle.Update.Spec.{
  Written, updated, inserted, WrittenAll, no_operations, no_entries, next, store_update,
  store_insert, inserted_leaf, length-store_insert,
}
use zksync_os_zisk.Merkle.Update.Order.{
  Above, Absent, Above-append, All-append, All-append_left, All-append_right, All-map, indices,
  indices-set, indices-append,
}
use zksync_os_zisk.Merkle.Update.Runs.{InsertRun, write_update_run, write_insert_run}
use zksync_os_zisk.Merkle.Update.Replace.{Tracks, set_agree, set_indexed, set_untouched}

module _ {base : Store} {w : Writes} {s : Store} (t : Tracks base w s) (k v : B256) where
  update-Tracks :
      (index : ℕ) (w' : Writes)
      → write_update index k v w ≡ ok w'
      → (s' : Store) × Written (update index) k v s s' × Tracks base w' s'
  update-Tracks index w' e =
      let r = write_update_run index k v w w' e in
      let new : TreeLeaf = record (r.leaf) { value = v } in
      let (leaf', read') = t.indexed index r.pos r.found in
      let same : ◌≡◌ {A = Option (ℕ × TreeLeaf)} (some (index, leaf')) (some (r.i, r.leaf)) =
        sym read' ∙ r.read in
      let ei : r.i ≡ index = ground arith in
      let here : HasLeaf s r.i r.leaf = t.agree r.pos r.i r.leaf r.read in
      let idx = indices-set w.leaves r.pos r.i r.leaf new r.read in
      (
        store_update s index r.leaf v,
        updated index k v s r.leaf (rw (← ei) here) r.same_key,
        subst (λ w'. Tracks base w' (store_update s index r.leaf v)) r.result
            (rw (← ei) (record {
              count = t.count ∙ sym (length-set s r.i new);
              ascending = rw idx t.ascending;
              below = rw (idx, length-set s r.i new) t.below;
              agree = set_agree w.leaves s r.pos r.i r.leaf new t.ascending r.read t.agree;
              indexed = λ j p h.
                  set_indexed w.leaves s r.pos r.i r.leaf new t.ascending r.read t.agree j p
                    (t.indexed j p h);
              untouched =
                  set_untouched w.leaves s r.pos r.i r.leaf new t.ascending r.read t.agree base
                    t.untouched;
            })),
      )

  -- The push of the new leaf, before its predecessor is relinked.
  pushed_agree :
      (new : TreeLeaf) (p i : ℕ) (leaf : TreeLeaf)
      → get_elem? (w.leaves ++ (w.next_tree_index, new) ∷ []) p ≡ some (i, leaf)
      → HasLeaf (s ++ new ∷ []) i leaf
  pushed_agree new p i leaf h = elim (Bool-cases (ltb p (length w.leaves))) [
    | inl old ↦
        let here : HasLeaf s i leaf =
          t.agree p i leaf (sym (get_elem?-append_left w.leaves _ p (ltb→lt _ _ old)) ∙ h) in
        get_elem?-append_left s (new ∷ []) i (lt-length_of_get_elem? s i leaf here) ∙ here
    | inr last ↦
        let at_end : p ≡ length w.leaves = omega (
          arith,
          ltb→le _ _ last,
          length-append w.leaves ((w.next_tree_index, new) ∷ []),
          lt-length_of_get_elem? (w.leaves ++ (w.next_tree_index, new) ∷ []) p (i, leaf) h,
        ) in
        let e : ◌≡◌ {A = Option (ℕ × TreeLeaf)} (some (w.next_tree_index, new)) (some (i, leaf)) =
          sym (get_elem?-append_end w.leaves (w.next_tree_index, new)) ∙ rw at_end at h in
        let ei : i ≡ length s = sym (ground arith) ∙ t.count in
        rw ei (get_elem?-append_end s new ∙ ground arith)
  ]

  pushed_indexed :
      (new : TreeLeaf) (j p : ℕ)
      → find_pos j ((w.next_tree_index, length w.leaves) ∷ w.pos_of) ≡ some p
      → (leaf : TreeLeaf) × (get_elem? (w.leaves ++ (w.next_tree_index, new) ∷ []) p
          ≡ some (j, leaf))
  unfolding find_pos
  pushed_indexed new j p h = elim (Bool-cases (w.next_tree_index == j)) [
    | inl same ↦
        let ep : some (length w.leaves) ≡ some p = rw same at h in
        let ep' : p ≡ length w.leaves = ground arith in
        (new, rw (ep', ← ==→eq _ _ same) (get_elem?-append_end w.leaves (w.next_tree_index, new)))
    | inr other ↦
        let (leaf, read) = t.indexed j p (rw other at h) in
        (
          leaf,
          get_elem?-append_left w.leaves _ p (lt-length_of_get_elem? w.leaves p (j, leaf) read)
              ∙ read,
        )
  ]

  pushed_untouched :
      (new : TreeLeaf) (j : ℕ)
      → Absent j (indices (w.leaves ++ (w.next_tree_index, new) ∷ []))
      → get_elem? (s ++ new ∷ []) j ≡ get_elem? base j
  pushed_untouched new j absent =
      let absent' : Absent j (indices w.leaves ++ w.next_tree_index ∷ []) =
        rw (indices-append w.leaves w.next_tree_index new) at absent in
      let last =
        All-append_right (λ i. j ≢ i) (indices w.leaves) (w.next_tree_index ∷ []) absent' in
      get_elem?-append_ne s new j (λ e. last.0 (e ∙ sym t.count))
      ∙ t.untouched j
          (All-append_left (λ i. j ≢ i) (indices w.leaves) (w.next_tree_index ∷ []) absent')

  -- The locals after the insertion, with the indices that the store gives.
  insert_writes : ℕ → ℕ → TreeLeaf → Writes
  insert_writes index pos prev = record {
    leaves =
        set (w.leaves ++ (w.next_tree_index, inserted_leaf prev k v) ∷ []) pos
          (index, record prev { next_index = length s });
    next_tree_index = length s + 1;
    pos_of = (w.next_tree_index, length w.leaves) ∷ w.pos_of;
  }

  insert_result :
      (index : ℕ) (w' : Writes)
      → length s + 1 < 2 ^ 64
      → (r : InsertRun index k v w w') → index ≡ r.i
      → insert_writes index r.pos r.prev ≡ w'
  unfolding insert_writes
  insert_result index w' room r ei =
      let fits : length s + 1 ≡ (w.next_tree_index + 1) % 2 ^ 64 = omega (arith, t.count) in
      (λ j. record {
        leaves =
            set (w.leaves ++ (w.next_tree_index, inserted_leaf r.prev k v) ∷ []) r.pos
              (ei j, record (r.prev) { next_index = sym t.count j });
        next_tree_index = fits j;
        pos_of = (w.next_tree_index, length w.leaves) ∷ w.pos_of;
      })
      ∙ r.result

  pushed_Tracks :
      (index pos : ℕ) (prev : TreeLeaf)
      → get_elem? (w.leaves ++ (w.next_tree_index, inserted_leaf prev k v) ∷ []) pos
        ≡ some (index, prev)
      → Tracks base (insert_writes index pos prev) (store_insert s index prev k v)
  unfolding insert_writes
  pushed_Tracks index pos prev read =
      let new = inserted_leaf prev k v in
      let pushed = w.leaves ++ (w.next_tree_index, new) ∷ [] in
      let prev' : TreeLeaf = record prev { next_index = length s } in
      let idx_pushed = indices-append w.leaves w.next_tree_index new in
      let idx = indices-set pushed pos index prev prev' read ∙ idx_pushed in
      let grown = length-store_insert s index prev k v in
      let ascending : Above 0 (indices w.leaves ++ w.next_tree_index ∷ []) =
        Above-append (indices w.leaves) w.next_tree_index (omega arith) t.ascending
          (rw t.count t.below) in
      record {
        count = sym grown;
        ascending = rw idx ascending;
        below =
            rw (idx, grown)
              (All-append (λ i. i < length s + 1) (indices w.leaves) (w.next_tree_index ∷ [])
                (All-map (λ i. i < length s) (λ i. i < length s + 1) (indices w.leaves)
                  (λ i h. omega arith) t.below)
                (omega (arith, t.count), tt));
        agree =
            set_agree pushed (s ++ new ∷ []) pos index prev prev' (rw idx_pushed ascending) read
              (pushed_agree new);
        indexed = λ j p h.
            set_indexed pushed (s ++ new ∷ []) pos index prev prev' (rw idx_pushed ascending) read
              (pushed_agree new) j p (pushed_indexed new j p h);
        untouched =
            set_untouched pushed (s ++ new ∷ []) pos index prev prev' (rw idx_pushed ascending) read
              (pushed_agree new) base (pushed_untouched new);
      }

  insert-Tracks :
      (index : ℕ) (w' : Writes)
      → length s + 1 < 2 ^ 64
      → write_insert index k v w ≡ ok w'
      → (s' : Store) × Written (insert index) k v s s' × Tracks base w' s'
  insert-Tracks index w' room e =
      let r = write_insert_run index k v w w' e in
      let new = inserted_leaf r.prev k v in
      let pushed = w.leaves ++ (w.next_tree_index, new) ∷ [] in
      let (leaf', read') = t.indexed index r.pos r.found in
      let (next', read_next') = t.indexed r.prev.next_index r.next_pos r.found_next in
      let same : ◌≡◌ {A = Option (ℕ × TreeLeaf)} (some (index, leaf')) (some (r.i, r.prev)) =
        sym read' ∙ r.read in
      let same_next : ◌≡◌ {A = Option (ℕ × TreeLeaf)} (some (r.prev.next_index, next'))
          (some (r.j, r.succ)) =
        sym read_next' ∙ r.read_next in
      let ei : index ≡ r.i = ground arith in
      let ej : r.prev.next_index ≡ r.j = ground arith in
      let here : HasLeaf s index r.prev = rw ei (t.agree r.pos r.i r.prev r.read) in
      let there : HasLeaf s r.prev.next_index r.succ =
        rw ej (t.agree r.next_pos r.j r.succ r.read_next) in
      let read : get_elem? pushed r.pos ≡ some (index, r.prev) = rw ei (
        get_elem?-append_left w.leaves _ r.pos
          (lt-length_of_get_elem? w.leaves r.pos (r.i, r.prev) r.read)
        ∙ r.read) in
      (
        store_insert s index r.prev k v,
        inserted index k v s r.prev r.succ here there r.below r.above,
        subst (λ w'. Tracks base w' (store_insert s index r.prev k v))
            (insert_result index w' room r ei) (pushed_Tracks index r.pos r.prev read),
      )

write_one-Tracks :
    {base : Store} (op : WriteOp) (k v : B256) (w w' : Writes) (s : Store)
    → Tracks base w s
    → length s + 1 < 2 ^ 64
    → write_one op k v w ≡ ok w'
    → (s' : Store) × Written op k v s s' × Tracks base w' s'
unfolding write_one
write_one-Tracks (update index) k v w w' s t room e = update-Tracks t k v index w' e
write_one-Tracks (insert index) k v w w' s t room e = insert-Tracks t k v index w' room e

-- An operation adds at most one leaf.
length-Written :
    {op : WriteOp} {k v : B256} {s s' : Store} → Written op k v s s' → length s' ≤ length s + 1
length-Written (updated i k v s leaf h e) =
    omega (arith, length-set s i (record leaf { value = v }))
length-Written (inserted p k v s prev succ hp hs below above) =
    omega (arith, length-store_insert s p prev k v)

-- A run of all writes follows the operations on the store, while the leaf count stays a u64.
pub write_all-Tracks :
    {base : Store} (ops : List WriteOp) (entries : List (B256 × B256)) (w w' : Writes) (s : Store)
    → Tracks base w s
    → length s + length ops < 2 ^ 64
    → write_all ops entries w ≡ ok w'
    → (s' : Store) × WrittenAll ops entries s s' × Tracks base w' s'
unfolding write_all
write_all-Tracks {base} [] entries w w' s t room e =
    (s, no_operations entries s, subst (λ x. Tracks base x s) (ground arith) t)
write_all-Tracks {base} (op ∷ ops) [] w w' s t room e =
    (s, no_entries op ops s, subst (λ x. Tracks base x s) (ground arith) t)
write_all-Tracks (op ∷ ops) ((k, v) ∷ entries) w w' s t room e =
    let (w₁, e₁, e₂) = >>=-eq-ok (write_one op k v w) (write_all ops entries) e in
    let (s₁, wr, t₁) = write_one-Tracks op k v w w₁ s t (omega arith) e₁ in
    let (s₂, rest, t₂) =
      write_all-Tracks ops entries w₁ w' s₁ t₁ (omega (arith, length-Written wr)) e₂ in
    (s₂, next op ops k v entries s s₁ s₂ wr rest, t₂)
