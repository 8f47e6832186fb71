-- ===== src/Merkle/Walk/Refines.antt =====
-- `BatchTreeUpdate::apply` (lib/src/merkle.rs) against the whole tree: the new root is that of the old
-- tree after the writes.
use zksync_os_zisk.Prelude.{
  ℕ, zero, suc, ◌+◌, ◌^◌, ◌≤◌, ◌<◌, ◌≡◌, refl, ap, sym, ◌∙◌, inl, inr, some, List, [], ◌∷◌, length,
  get_elem?, get_elem?_of_lt, All, ok, arith,
}
use zksync_os_zisk.Merkle.Hash.{B256, IsB256, Blake2s, hash_leaf_inj, UnlessCollision, and_then}
use zksync_os_zisk.Merkle.Tree.{
  TreeLeaf, IsTreeLeaf, Store, HasLeaf, IsLinked, value_of, leaf_hash, slot_hash, leaf_hashes,
  levels, tree_root, slot_hash-IsB256, slot_preimage, TreeHashed, LevelsHashed-LevelsIn,
}
use zksync_os_zisk.Merkle.Proof.Sound.{StoreFits}
use zksync_os_zisk.Merkle.Update.{BatchTreeUpdate, start_writes, sort_by_index, find_pos}
use zksync_os_zisk.Merkle.Update.Order.{Above, indices, get_elem?-indices, All-map}
use zksync_os_zisk.Merkle.Update.Replace.{Tracks}
use zksync_os_zisk.Merkle.Update.Track.{write_all-Tracks}
use zksync_os_zisk.Merkle.Update.Ordered.{
  Ordered, Extends, write_all-Ordered, sort_by_index-Above, indices_increase→Above,
  indices_below→All, collect_positions-found,
}
use zksync_os_zisk.Merkle.Update.Linked.{WrittenAll-IsLinked}
use zksync_os_zisk.Merkle.Update.Values.{overlay, value_of-WrittenAll}
use zksync_os_zisk.Merkle.Walk.{leaf_nodes, apply}
use zksync_os_zisk.Merkle.Walk.Sound.{OldOf, NewOf, Agrees}
use zksync_os_zisk.Merkle.Walk.Roots.{walk_levels_sound, walk_levels-below, single_root-top}
use zksync_os_zisk.Merkle.Walk.Leaves.{
  find_leaf-get, leaf_nodes-indices, leaf_nodes-OldFits, leaf_nodes-NewOf, leaf_nodes-OldOf,
}
use zksync_os_zisk.Merkle.Walk.Apply.{ApplyRun, walk_run}

-- The ranges of the source's types.
pub record IsBatchTreeUpdate (u : BatchTreeUpdate) : Type 0 where
  pub leaves_fit :
      (p i : ℕ) (leaf : TreeLeaf) → get_elem? u.sorted_leaves p ≡ some (i, leaf) → IsTreeLeaf leaf
  pub hashes_fit : All IsB256 u.intermediate_hashes

-- The leaves of a list are those of the tree.
abbrev Shown : Store → List (ℕ × TreeLeaf) → Type 0
Shown s xs = (p i : ℕ) (leaf : TreeLeaf) → get_elem? xs p ≡ some (i, leaf) → HasLeaf s i leaf

module _ ⦃H : Blake2s⦄ where
  -- Each leaf is shown, or a second preimage is at hand: so all are shown, or one is at hand.
  collect :
      (s : Store) (xs : List (ℕ × TreeLeaf))
      → ((p i : ℕ) (leaf : TreeLeaf)
          → get_elem? xs p ≡ some (i, leaf)
          → UnlessCollision (TreeHashed s) (HasLeaf s i leaf))
      → UnlessCollision (TreeHashed s) (Shown s xs)
  collect s [] h = inl (λ p i leaf e. absurd (cc))
  collect s ((j, x) ∷ xs) h = and_then (h 0 j x refl) λ first.
      and_then (collect s xs (λ p i leaf e. h (suc p) i leaf e)) λ later. inl (shown first later)
    where
      shown : HasLeaf s j x → Shown s xs → Shown s ((j, x) ∷ xs)
      shown first later zero i leaf e =
          let ej : j ≡ i = ground arith in let ex : x ≡ leaf = ground arith in rw (← ej, ← ex) first
      shown first later (suc p) i leaf e = later p i leaf e

  -- A leaf with the hash of a position of the tree that holds a leaf is that leaf.
  slot_is :
      (s : Store) (i : ℕ) (leaf : TreeLeaf)
      → StoreFits s
      → IsTreeLeaf leaf
      → i < length s
      → leaf_hash leaf ≡ leaf_hashes s i
      → UnlessCollision (TreeHashed s) (HasLeaf s i leaf)
  slot_is s i leaf fits typed lt e =
      let (x, hx) = get_elem?_of_lt s i lt in
      let tx = fits i x hx in
      and_then
        (hash_leaf_inj leaf.key leaf.value leaf.next_index x.key x.value x.next_index
          (inl (i, ap slot_preimage (sym hx))) typed.key_fits typed.value_fits typed.next_fits
          tx.key_fits tx.value_fits tx.next_fits (rw hx at e))
        λ (ek, ev, en).
          inl (hx ∙ sym (ap some (λ m. record { key = ek m; value = ev m; next_index = en m })))

  start-Tracks :
      (u : BatchTreeUpdate) (s : Store)
      → Above 0 (indices u.sorted_leaves)
      → All (λ i. i < length s) (indices u.sorted_leaves)
      → length s ≡ u.leaf_count_before
      → Shown s u.sorted_leaves
      → Tracks s (start_writes u) s
  unfolding start_writes find_pos
  start-Tracks u s above below ec shown = record {
    count = sym ec;
    ascending = above;
    below = below;
    agree = shown;
    indexed = λ i p e.
        collect_positions-found u.sorted_leaves u.sorted_leaves [] 0 i p
          (λ q y h. let z : 0 + q ≡ q = omega arith in rw z h) (λ i p h. absurd (cc)) e;
    untouched = λ i a. refl;
  }

  module _ (u : BatchTreeUpdate) (s : Store) (root : B256) (n : ℕ) (typed : IsBatchTreeUpdate u)
      (fits : StoreFits s) (counts : length s ≡ u.leaf_count_before)
      (room : length s + length u.operations < 2 ^ 64) (run : ApplyRun u (tree_root s) root n) where
    above : Above 0 (indices u.sorted_leaves)
    above = indices_increase→Above u.sorted_leaves run.increase

    below : All (λ i. i < u.leaf_count_before) (indices u.sorted_leaves)
    below = indices_below→All u.leaf_count_before u.sorted_leaves run.below

    start-Ordered : Ordered (start_writes u)
    unfolding start_writes
    start-Ordered = record { ascending = above; below = below }

    later :
        Ordered run.w
        × Extends (indices u.sorted_leaves) (indices run.w.leaves)
        × (run.w.next_tree_index ≤ u.leaf_count_before + length u.operations)
    unfolding start_writes
    later =
        write_all-Ordered u.operations u.entries (start_writes u) run.w start-Ordered
          (omega (arith, counts, room)) run.writes

    sorted : sort_by_index run.w.leaves ≡ run.w.leaves
    sorted = sort_by_index-Above 0 run.w.leaves later.0.ascending

    leaves : leaf_nodes u.leaf_count_before u.sorted_leaves run.w.leaves ≡ ok run.level
    leaves = rw sorted at run.leaves

    level-indices : indices run.level ≡ indices run.w.leaves
    level-indices =
        leaf_nodes-indices u.leaf_count_before u.sorted_leaves run.w.leaves run.level leaves

    top : run.top ≡ (0, run.roots) ∷ []
    top = single_root-top run.top run.rest run.roots run.single (
        walk_levels-below u.leaf_count_before 64 0 run.level run.top u.intermediate_hashes run.rest
          (rw level-indices (
            All-map (λ i. i < run.w.next_tree_index) (λ i. i < 2 ^ 64) (indices run.w.leaves)
              (λ i lt. omega (arith, later.2, counts, room)) later.0.below))
          run.walked)

    -- The walk, for the tree of the old root.
    walk : UnlessCollision (TreeHashed s) (
        OldOf (leaf_hashes s) run.level
        × ((g : ℕ → B256)
            → Agrees 0 (leaf_hashes s) g (indices run.level)
            → NewOf g run.level
            → NewOf (levels 64 g) run.top))
    unfolding tree_root
    walk =
        walk_levels_sound u.leaf_count_before 64 0 (leaf_hashes s) run.level run.top
          u.intermediate_hashes run.rest
          (LevelsHashed-LevelsIn (TreeHashed s) 64 (leaf_hashes s) (λ m x. inr x))
          (λ i. slot_hash-IsB256 (get_elem? s i)) (rw level-indices later.0.ascending)
          (leaf_nodes-OldFits u.leaf_count_before u.sorted_leaves run.w.leaves run.level leaves)
          typed.hashes_fit run.walked (rw top (run.old_root, tt))

    -- The old hashes authenticate the witness leaves.
    witness-Shown :
        OldOf (leaf_hashes s) run.level → UnlessCollision (TreeHashed s) (Shown s u.sorted_leaves)
    witness-Shown old = collect s u.sorted_leaves λ p i leaf h.
        let at_p = later.1 p i (get_elem?-indices u.sorted_leaves p i leaf h) in
        let lt : i < u.leaf_count_before =
          below_get (indices u.sorted_leaves) p i below
            (get_elem?-indices u.sorted_leaves p i leaf h) in
        let (o, found, eo) =
          leaf_nodes-OldOf u.leaf_count_before u.sorted_leaves (leaf_hashes s) run.w.leaves
            run.level p i leaves old at_p lt in
        let same : leaf ≡ o =
          let e : some leaf ≡ some o =
            sym (find_leaf-get 0 u.sorted_leaves p i leaf above h) ∙ found in
          ground arith in
        slot_is s i leaf fits (typed.leaves_fit p i leaf h) (omega (arith, counts)) (rw same eo)
      where
        below_get :
            {m : ℕ} (is : List ℕ) (p i : ℕ) → All (λ i. i < m) is → get_elem? is p ≡ some i → i < m
        below_get [] p i b h = absurd (cc)
        below_get (x ∷ is) zero i (l, b) h = ground arith
        below_get (x ∷ is) (suc p) i (l, b) h = below_get is p i b h

    -- What the writes do to the tree.
    abbrev Refinement : Type 0
    Refinement =
        (s' : Store) × (root ≡ tree_root s')
        × (n ≡ length s')
        × (IsLinked s → IsLinked s')
        × (IsLinked s → (j : B256) → value_of s' j ≡ overlay u.operations u.entries (value_of s) j)

    finish :
        Shown s u.sorted_leaves
        → ((g : ℕ → B256)
            → Agrees 0 (leaf_hashes s) g (indices run.level)
            → NewOf g run.level
            → NewOf (levels 64 g) run.top)
        → Refinement
    unfolding tree_root
    finish shown carry =
        let start = start-Tracks u s above (rw (← counts) at below) counts shown in
        let (s', written, t) =
          write_all-Tracks u.operations u.entries (start_writes u) run.w s start room run.writes in
        let new : NewOf (levels 64 (leaf_hashes s')) ((0, run.roots) ∷ []) = rw top at (
          carry (leaf_hashes s')
            (λ j hj absent. ap slot_hash (t.untouched j (rw (← level-indices) absent)))
            (leaf_nodes-NewOf u.leaf_count_before u.sorted_leaves (leaf_hashes s') run.w.leaves
              run.level leaves (λ p i leaf h. sym (ap slot_hash (t.agree p i leaf h))))) in
        (
          s',
          sym run.new_root ∙ new.0,
          sym run.new_count ∙ t.count,
          WrittenAll-IsLinked written,
          λ linked j. value_of-WrittenAll written linked j,
        )

    run_refines : UnlessCollision (TreeHashed s) Refinement
    run_refines = and_then walk λ w. and_then (witness-Shown w.0) λ shown. inl (finish shown w.1)

  -- If `apply` accepts a batch against the root of a linked tree `s`, then, unless a second preimage
  -- of a byte string that the tree hashes is at hand, the root and leaf count it returns are those of
  -- a linked tree that holds under each key the last value written to it, and what `s` held where
  -- nothing was written. The batch has leaves and hashes, and `s` leaves, in the range of their
  -- types, `s` has the batch's leaf count, and that count plus the number of operations is below 2 ^
  -- 64.
  pub apply_refines :
      (u : BatchTreeUpdate) (s : Store) (root : B256) (n : ℕ)
      → IsBatchTreeUpdate u
      → StoreFits s
      → IsLinked s
      → length s ≡ u.leaf_count_before
      → length s + length u.operations < 2 ^ 64
      → apply u (tree_root s) ≡ ok (root, n)
      → UnlessCollision (TreeHashed s) (
          (s' : Store) × (root ≡ tree_root s')
          × (n ≡ length s')
          × IsLinked s'
          × ((j : B256) → value_of s' j ≡ overlay u.operations u.entries (value_of s) j))
  apply_refines u s root n typed fits linked counts room e =
      and_then (run_refines u s root n typed fits counts room (walk_run u (tree_root s) root n e))
        λ (s', er, en, keeps, values). inl (s', er, en, keeps linked, values linked)
