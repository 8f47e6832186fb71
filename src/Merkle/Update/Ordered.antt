-- ===== src/Merkle/Update/Ordered.antt =====
-- `apply_writes` keeps the witness leaves in index order, at their positions, whatever the tree holds.
use zksync_os_zisk.Prelude.{
  ℕ, suc, ◌+◌, ◌%◌, ◌^◌, ◌≤◌, ◌<◌, ◌≡◌, refl, subst, ◌∙◌, inl, inr, true, some, List, [], ◌∷◌, ◌++◌,
  ◌==◌, ==→eq, Bool-cases, length, get_elem?, get_elem?-append_left, lt-length_of_get_elem?, All,
  ok, >>=-eq-ok, arith,
}
use zksync_os_zisk.Merkle.Hash.{B256}
use zksync_os_zisk.Merkle.Tree.{TreeLeaf}
use zksync_os_zisk.Merkle.Update.{
  WriteOp, update, insert, Writes, find_pos, collect_positions, write_one, write_all,
  indices_increase, indices_below, insert_by_index, sort_by_index,
}
use zksync_os_zisk.Merkle.Update.Spec.{inserted_leaf}
use zksync_os_zisk.Merkle.Update.Order.{
  Above, Above-append, All-append, All-map, indices, indices-set, indices-append,
}
use zksync_os_zisk.Merkle.Update.Runs.{UpdateRun, InsertRun, write_update_run, write_insert_run}

pub record Ordered (w : Writes) : Type 0 where
  pub ascending : Above 0 (indices w.leaves)
  pub below : All (λ i. i < w.next_tree_index) (indices w.leaves)

-- Every index keeps its position.
abbrev pub Extends : List ℕ → List ℕ → Type 0
Extends is is' = (p i : ℕ) → get_elem? is p ≡ some i → get_elem? is' p ≡ some i

pub record Advances (w w' : Writes) : Type 0 where
  pub ordered : Ordered w'
  pub extends : Extends (indices w.leaves) (indices w'.leaves)
  pub count : w'.next_tree_index ≤ w.next_tree_index + 1

write_update-Advances :
    (index : ℕ) (k v : B256) (w w' : Writes) → Ordered w → UpdateRun index k v w w' → Advances w w'
write_update-Advances index k v w w' o r =
    let new : TreeLeaf = record (r.leaf) { value = v } in
    let idx = indices-set w.leaves r.pos r.i r.leaf new r.read in
    subst (λ x. Advances w x) r.result
      (record {
        ordered = record { ascending = rw idx o.ascending; below = rw idx o.below };
        extends = λ p i h. rw idx h;
        count = omega arith;
      })

write_insert-Advances :
    (index : ℕ) (k v : B256) (w w' : Writes)
    → Ordered w
    → w.next_tree_index + 1 < 2 ^ 64
    → InsertRun index k v w w'
    → Advances w w'
write_insert-Advances index k v w w' o room r =
    let new = inserted_leaf r.prev k v in
    let n = w.next_tree_index in
    let pushed = w.leaves ++ (n, new) ∷ [] in
    let prev' : TreeLeaf = record (r.prev) { next_index = n } in
    let read : get_elem? pushed r.pos ≡ some (r.i, r.prev) =
      get_elem?-append_left w.leaves _ r.pos
        (lt-length_of_get_elem? w.leaves r.pos (r.i, r.prev) r.read)
      ∙ r.read in
    let idx = indices-set pushed r.pos r.i r.prev prev' read ∙ indices-append w.leaves n new in
    let wrap : (n + 1) % 2 ^ 64 ≡ n + 1 = omega arith in
    subst (λ x. Advances w x) r.result
      (record {
        ordered = record {
          ascending = rw idx (Above-append (indices w.leaves) n (omega arith) o.ascending o.below);
          below =
              rw (idx, wrap)
                (All-append (λ i. i < n + 1) (indices w.leaves) (n ∷ [])
                  (All-map (λ i. i < n) (λ i. i < n + 1) (indices w.leaves) (λ i h. omega arith)
                    o.below)
                  (omega arith, tt));
        };
        extends = λ p i h. rw idx (
            get_elem?-append_left (indices w.leaves) (n ∷ []) p
              (lt-length_of_get_elem? (indices w.leaves) p i h)
            ∙ h);
        count = omega arith;
      })

write_one-Advances :
    (op : WriteOp) (k v : B256) (w w' : Writes)
    → Ordered w
    → w.next_tree_index + 1 < 2 ^ 64
    → write_one op k v w ≡ ok w'
    → Advances w w'
unfolding write_one
write_one-Advances (update index) k v w w' o room e =
    write_update-Advances index k v w w' o (write_update_run index k v w w' e)
write_one-Advances (insert index) k v w w' o room e =
    write_insert-Advances index k v w w' o room (write_insert_run index k v w w' e)

pub write_all-Ordered :
    (ops : List WriteOp) (entries : List (B256 × B256)) (w w' : Writes)
    → Ordered w
    → w.next_tree_index + length ops < 2 ^ 64
    → write_all ops entries w ≡ ok w'
    → Ordered w'
      × Extends (indices w.leaves) (indices w'.leaves)
      × (w'.next_tree_index ≤ w.next_tree_index + length ops)
unfolding write_all
write_all-Ordered [] entries w w' o room e =
    subst
      (λ x.
        Ordered x
        × Extends (indices w.leaves) (indices x.leaves)
        × (x.next_tree_index ≤ w.next_tree_index + length {A = WriteOp} []))
      (ground arith) (o, λ p i h. h, omega arith)
write_all-Ordered (op ∷ ops) [] w w' o room e =
    subst
      (λ x.
        Ordered x
        × Extends (indices w.leaves) (indices x.leaves)
        × (x.next_tree_index ≤ w.next_tree_index + length (op ∷ ops)))
      (ground arith) (o, λ p i h. h, omega arith)
write_all-Ordered (op ∷ ops) ((k, v) ∷ entries) w w' o room e =
    let (w₁, e₁, e₂) = >>=-eq-ok (write_one op k v w) (write_all ops entries) e in
    let a = write_one-Advances op k v w w₁ o (omega arith) e₁ in
    let (o', ext, le) = write_all-Ordered ops entries w₁ w' a.ordered (omega (arith, a.count)) e₂ in
    (o', λ p i h. ext p i (a.extends p i h), omega (arith, a.count))

-- Leaves in ascending order are sorted already.
pub sort_by_index-Above :
    (lo : ℕ) (xs : List (ℕ × TreeLeaf)) → Above lo (indices xs) → sort_by_index xs ≡ xs
unfolding sort_by_index
sort_by_index-Above lo [] a = refl
sort_by_index-Above lo ((i, x) ∷ xs) (p, a) = rw (sort_by_index-Above (suc i) xs a) (first i x xs a)
  where
    first :
        (i : ℕ) (x : TreeLeaf) (xs : List (ℕ × TreeLeaf))
        → Above (suc i) (indices xs)
        → insert_by_index (i, x) xs ≡ (i, x) ∷ xs
    first i x [] a = refl
    first i x ((j, y) ∷ xs) a = ground arith

-- The witness checks of `apply`.
pub indices_increase→Above :
    (xs : List (ℕ × TreeLeaf)) → indices_increase xs ≡ true → Above 0 (indices xs)
unfolding indices_increase
indices_increase→Above [] e = tt
indices_increase→Above ((i, x) ∷ []) e = (omega arith, tt)
indices_increase→Above ((i, x) ∷ (j, y) ∷ xs) e =
    let tail = indices_increase→Above ((j, y) ∷ xs) (ground arith) in
    let lt : i < j = ground arith in (omega arith, (lt, tail.1))

pub indices_below→All :
    (count : ℕ) (xs : List (ℕ × TreeLeaf))
    → indices_below count xs ≡ true
    → All (λ i. i < count) (indices xs)
unfolding indices_below
indices_below→All count [] e = tt
indices_below→All count ((i, x) ∷ xs) e = (ground arith, indices_below→All count xs (ground arith))

-- The index map collected from a list leads to the leaf of the index.
pub collect_positions-found :
    (whole xs : List (ℕ × TreeLeaf)) (m : List (ℕ × ℕ)) (pos i p : ℕ)
    → ((q : ℕ) (y : ℕ × TreeLeaf) → get_elem? xs q ≡ some y → get_elem? whole (pos + q) ≡ some y)
    → ((i p : ℕ) → find_pos i m ≡ some p → (leaf : TreeLeaf) × (get_elem? whole p ≡ some (i, leaf)))
    → find_pos i (collect_positions pos xs m) ≡ some p
    → (leaf : TreeLeaf) × (get_elem? whole p ≡ some (i, leaf))
unfolding collect_positions
collect_positions-found whole [] m pos i p tail h e = h i p e
collect_positions-found whole ((j, x) ∷ xs) m pos i p tail h e =
    collect_positions-found whole xs ((j, pos) ∷ m) (pos + 1) i p
      (λ q y r.
        let shift : pos + suc q ≡ pos + 1 + q = omega arith in rw shift at (tail (suc q) y r))
      latest e
  where
    latest :
        (i p : ℕ)
        → find_pos i ((j, pos) ∷ m) ≡ some p
        → (leaf : TreeLeaf) × (get_elem? whole p ≡ some (i, leaf))
    latest i p r = elim (Bool-cases (j == i)) [
      | inl same ↦
          let e' : some pos ≡ some p = unfold find_pos in rw same at r in
          let ep : pos + 0 ≡ p = ground arith in
          (x, rw (← ep, ← ==→eq _ _ same) (tail 0 (j, x) refl))
      | inr other ↦ h i p (unfold find_pos in rw other at r)
    ]
