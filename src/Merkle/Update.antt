-- ===== src/Merkle/Update.antt =====
-- `BatchTreeUpdate` of lib/src/merkle.rs: the witness checks and the write operations. A panic of the
-- source is `err`. The release profile of the guest has no overflow checks: `+ 1` on a u64 wraps.
pub mod Spec
pub mod Order
pub mod Runs
pub mod Replace
pub mod Track
pub mod Ordered
pub mod Linked
pub mod Values
use zksync_os_zisk.Prelude.{
  ℕ, zero, suc, ◌+◌, ◌%◌, ◌^◌, Bool, true, false, ◌&&◌, Option, none, some, List, [], ◌∷◌, ◌++◌,
  ◌==◌, ltb, if◌then◌else◌, length, get_elem?, set, Result, ok, err, ◌>>=◌, ◌>>◌, guard,
  from_option,
}
use zksync_os_zisk.Merkle.Hash.{B256}
use zksync_os_zisk.Merkle.Tree.{TreeLeaf}

pub data WriteOp : Type 0 where
  update : ℕ → WriteOp
  insert : ℕ → WriteOp

pub record BatchTreeUpdate : Type 0 where
  pub operations : List WriteOp
  pub entries : List (B256 × B256)
  pub sorted_leaves : List (ℕ × TreeLeaf)
  pub intermediate_hashes : List B256
  pub leaf_count_before : ℕ

-- One constructor for each assertion, `expect` or indexing that can fail.
pub data Panic : Type 0 where
  indices_not_increasing index_beyond_leaf_count : Panic
  unknown_index position_out_of_bounds update_key_mismatch : Panic
  predecessor_not_smaller successor_missing successor_not_larger : Panic
  pre_leaf_missing out_of_intermediate_hashes hashes_not_consumed : Panic
  not_a_single_root old_root_mismatch : Panic

-- `windows(2)` with `pair[0].0 < pair[1].0`
unfoldable pub indices_increase : List (ℕ × TreeLeaf) → Bool
indices_increase [] = true
indices_increase (x ∷ []) = true
indices_increase ((i, a) ∷ (j, b) ∷ rest) = ltb i j && indices_increase ((j, b) ∷ rest)

unfoldable pub indices_below : ℕ → List (ℕ × TreeLeaf) → Bool
indices_below count [] = true
indices_below count ((i, leaf) ∷ rest) = ltb i count && indices_below count rest

unfoldable pub assert_leaves_name_distinct_old_positions : BatchTreeUpdate → Result Panic (Unit {0})
unfolding indices_increase indices_below
assert_leaves_name_distinct_old_positions u = do
  guard (indices_increase u.sorted_leaves) indices_not_increasing
  guard (indices_below u.leaf_count_before u.sorted_leaves) index_beyond_leaf_count

-- The locals of `apply_writes`. `pos_of` is the hash map from an index to a position in `leaves`, the
-- latest insertion first.
pub record Writes : Type 0 where
  pub leaves : List (ℕ × TreeLeaf)
  pub next_tree_index : ℕ
  pub pos_of : List (ℕ × ℕ)

unfoldable pub find_pos : ℕ → List (ℕ × ℕ) → Option ℕ
find_pos index [] = none
find_pos index ((i, pos) ∷ rest) = if i == index then some pos else find_pos index rest

-- `leaves.iter().enumerate().map(|(pos, (idx, _))| (*idx, pos)).collect()`
unfoldable pub collect_positions : ℕ → List (ℕ × TreeLeaf) → List (ℕ × ℕ) → List (ℕ × ℕ)
collect_positions pos [] m = m
collect_positions pos ((i, leaf) ∷ rest) m = collect_positions (pos + 1) rest ((i, pos) ∷ m)

unfoldable pub start_writes : BatchTreeUpdate → Writes
unfolding collect_positions
start_writes u = record {
  leaves = u.sorted_leaves;
  next_tree_index = u.leaf_count_before;
  pos_of = collect_positions 0 u.sorted_leaves [];
}

unfoldable pub write_update : ℕ → B256 → B256 → Writes → Result Panic Writes
unfolding find_pos
write_update index key new_value w = do
  pos ← from_option (find_pos index w.pos_of) unknown_index
  (i, leaf) ← from_option (get_elem? w.leaves pos) position_out_of_bounds
  guard (leaf.key == key) update_key_mismatch
  ok (record w { leaves = set w.leaves pos (i, record leaf { value = new_value }) })

unfoldable pub write_insert : ℕ → B256 → B256 → Writes → Result Panic Writes
unfolding find_pos
write_insert prev_index key new_value w = do
  let this_index = w.next_tree_index
  prev_pos ← from_option (find_pos prev_index w.pos_of) unknown_index
  (i, prev) ← from_option (get_elem? w.leaves prev_pos) position_out_of_bounds
  let old_next = prev.next_index
  guard (ltb prev.key key) predecessor_not_smaller
  next_pos ← from_option (find_pos old_next w.pos_of) successor_missing
  (j, next) ← from_option (get_elem? w.leaves next_pos) position_out_of_bounds
  guard (ltb key next.key) successor_not_larger
  let new_leaf : TreeLeaf = record { key = key; value = new_value; next_index = old_next }
  let pushed = w.leaves ++ (this_index, new_leaf) ∷ []
  ok (record {
    leaves = set pushed prev_pos (i, record prev { next_index = this_index });
    next_tree_index = (this_index + 1) % 2 ^ 64;
    pos_of = (this_index, length w.leaves) ∷ w.pos_of;
  })

unfoldable pub write_one : WriteOp → B256 → B256 → Writes → Result Panic Writes
unfolding write_update write_insert
write_one (update index) key new_value w = write_update index key new_value w
write_one (insert prev_index) key new_value w = write_insert prev_index key new_value w

-- `operations.iter().zip(&entries)` stops at the shorter list.
unfoldable pub write_all : List WriteOp → List (B256 × B256) → Writes → Result Panic Writes
unfolding write_one
write_all [] entries w = ok w
write_all (op ∷ ops) [] w = ok w
write_all (op ∷ ops) ((key, new_value) ∷ entries) w = do
  w' ← write_one op key new_value w
  write_all ops entries w'

-- The stable sort by index.
unfoldable pub insert_by_index : ℕ × TreeLeaf → List (ℕ × TreeLeaf) → List (ℕ × TreeLeaf)
insert_by_index x [] = x ∷ []
insert_by_index (i, leaf) ((j, other) ∷ rest) =
    if ltb j i then (j, other) ∷ insert_by_index (i, leaf) rest else (i, leaf) ∷ (j, other) ∷ rest

unfoldable pub sort_by_index : List (ℕ × TreeLeaf) → List (ℕ × TreeLeaf)
unfolding insert_by_index
sort_by_index [] = []
sort_by_index (x ∷ rest) = insert_by_index x (sort_by_index rest)

unfoldable pub apply_writes : BatchTreeUpdate → Result Panic (List (ℕ × TreeLeaf) × ℕ)
unfolding write_all start_writes sort_by_index
apply_writes u = do
  w ← write_all u.operations u.entries (start_writes u)
  ok (sort_by_index w.leaves, w.next_tree_index)
