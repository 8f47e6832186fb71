-- ===== src/Merkle/Walk.antt =====
-- The root computation of `BatchTreeUpdate` (lib/src/merkle.rs): the streaming walk that carries an
-- old and a new hash for each touched position, and `apply`.
pub mod Level
pub mod Shape
pub mod Sound
pub mod Roots
pub mod Leaves
pub mod Apply
pub mod Refines
use zksync_os_zisk.Prelude.{
  ℕ, zero, suc, ◌+◌, ◌-◌, ◌*◌, ◌/◌, ◌%◌, ◌^◌, ◌&&◌, Option, none, some, List, [], ◌∷◌, ◌==◌, ltb,
  leb, if◌then◌else◌, Result, ok, err, ◌>>=◌, ◌>>◌, guard, from_option,
}
use zksync_os_zisk.Merkle.Hash.{B256, Blake2s, tree_depth, blake2s_compress, empty_subtree_hash}
use zksync_os_zisk.Merkle.Tree.{TreeLeaf, leaf_hash}
use zksync_os_zisk.Merkle.Update.{
  BatchTreeUpdate, Panic, pre_leaf_missing, out_of_intermediate_hashes, hashes_not_consumed,
  not_a_single_root, old_root_mismatch, assert_leaves_name_distinct_old_positions, apply_writes,
}

-- The hashes of one position in the old and in the new tree.
pub record HashPair : Type 0 where
  pub old : B256
  pub new : B256

abbrev pub Node : Type 0
Node = ℕ × HashPair

-- `orig_by_idx.get(idx)`: a hash map collected from the list keeps the last leaf of an index.
unfoldable pub find_leaf : ℕ → List (ℕ × TreeLeaf) → Option TreeLeaf
find_leaf idx [] = none
find_leaf idx ((i, leaf) ∷ rest) = elim (find_leaf idx rest) [
  | some later ↦ some later
  | none ↦ if i == idx then some leaf else none
]

-- The assertions at the end of the walk.
unfoldable pub single_root : List Node → List B256 → Result Panic HashPair
single_root level (h ∷ hashes) = err hashes_not_consumed
single_root ((idx, p) ∷ []) [] = ok p
single_root level [] = err not_a_single_root

module _ ⦃H : Blake2s⦄ where
  unfoldable pub resolve_offpath_sibling : ℕ → ℕ → ℕ → List B256 → Result Panic (B256 × List B256)
  resolve_offpath_sibling leaf_count_before depth sib_idx hashes =
      if leb leaf_count_before (sib_idx * 2 ^ depth % 2 ^ 64)
      then ok (empty_subtree_hash depth, hashes)
      else elim hashes [ [] ↦ err out_of_intermediate_hashes | sib ∷ rest ↦ ok (sib, rest) ]

  abbrev pub left_parent : ℕ → B256 → HashPair → Node
  left_parent idx sib p =
      (idx / 2, record { old = blake2s_compress sib p.old; new = blake2s_compress sib p.new })

  abbrev pub right_parent : ℕ → HashPair → B256 → Node
  right_parent idx p sib =
      (idx / 2, record { old = blake2s_compress p.old sib; new = blake2s_compress p.new sib })

  abbrev pub joint_parent : ℕ → HashPair → HashPair → Node
  joint_parent idx p q =
      (idx / 2, record { old = blake2s_compress p.old q.old; new = blake2s_compress p.new q.new })

  -- A node whose sibling is off the path.
  unfoldable pub lone_node : ℕ → ℕ → ℕ → HashPair → List B256 → Result Panic (Node × List B256)
  unfolding resolve_offpath_sibling
  lone_node count depth idx p hashes =
      if idx % 2 == 1
      then (do
        (sib, rest) ← resolve_offpath_sibling count depth (idx - 1) hashes
        ok (left_parent idx sib p, rest))
      else (do
        (sib, rest) ← resolve_offpath_sibling count depth (idx + 1) hashes
        ok (right_parent idx p sib, rest))

  -- One level of the walk: the nodes of the level above, and the hashes that are left.
  unfoldable pub walk_level : ℕ → ℕ → List Node → List B256 → Result Panic (List Node × List B256)
  unfolding lone_node
  walk_level count depth [] hashes = ok ([], hashes)
  walk_level count depth ((i, p) ∷ []) hashes = do
    (n, rest) ← lone_node count depth i p hashes
    ok (n ∷ [], rest)
  walk_level count depth ((i, p) ∷ (j, q) ∷ level) hashes =
      let alone : Result Panic (List Node × List B256) = (do
        (n, rest) ← lone_node count depth i p hashes
        (next, rest') ← walk_level count depth ((j, q) ∷ level) rest
        ok (n ∷ next, rest')) in
      let paired : Result Panic (List Node × List B256) = (do
        (next, rest) ← walk_level count depth level hashes
        ok (joint_parent i p q ∷ next, rest)) in
      if i % 2 == 0 && j == i + 1 then paired else alone

  -- `for depth in 0..TREE_DEPTH`, with the rounds that are left.
  unfoldable pub walk_levels :
      ℕ → ℕ → ℕ → List Node → List B256 → Result Panic (List Node × List B256)
  unfolding walk_level
  walk_levels count zero depth level hashes = ok (level, hashes)
  walk_levels count (suc rounds) depth level hashes = do
    (next, rest) ← walk_level count depth level hashes
    walk_levels count rounds (depth + 1) next rest

  -- The depth-0 nodes.
  unfoldable pub leaf_nodes :
      ℕ → List (ℕ × TreeLeaf) → List (ℕ × TreeLeaf) → Result Panic (List Node)
  unfolding find_leaf
  leaf_nodes count sorted_leaves [] = ok []
  leaf_nodes count sorted_leaves ((idx, leaf) ∷ rest) = do
    old ←
        (if ltb idx count
          then (do o ← from_option (find_leaf idx sorted_leaves) pre_leaf_missing; ok (leaf_hash o))
          else ok (empty_subtree_hash 0))
    nodes ← leaf_nodes count sorted_leaves rest
    ok ((idx, record { old = old; new = leaf_hash leaf }) ∷ nodes)

  unfoldable pub walk_old_and_new : BatchTreeUpdate → List (ℕ × TreeLeaf) → Result Panic HashPair
  unfolding leaf_nodes walk_levels single_root
  walk_old_and_new u new_leaves = do
    level ← leaf_nodes u.leaf_count_before u.sorted_leaves new_leaves
    (top, rest) ← walk_levels u.leaf_count_before tree_depth 0 level u.intermediate_hashes
    single_root top rest

  unfoldable pub apply : BatchTreeUpdate → B256 → Result Panic (B256 × ℕ)
  unfolding assert_leaves_name_distinct_old_positions apply_writes walk_old_and_new
  apply u expected_old_root = do
    assert_leaves_name_distinct_old_positions u
    (new_leaves, next_tree_index) ← apply_writes u
    roots ← walk_old_and_new u new_leaves
    guard (roots.old == expected_old_root) old_root_mismatch
    ok (roots.new, next_tree_index)
