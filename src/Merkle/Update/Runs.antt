-- ===== src/Merkle/Update/Runs.antt =====
-- What a write of `apply_writes` has read when it does not panic.
use zksync_os_zisk.Prelude.{
  ℕ, ◌+◌, ◌%◌, ◌^◌, ◌<◌, ◌≡◌, inl, inr, some, [], ◌∷◌, ◌++◌, length, get_elem?, set, ok,
  Option-cases, arith,
}
use zksync_os_zisk.Merkle.Hash.{B256}
use zksync_os_zisk.Merkle.Tree.{TreeLeaf}
use zksync_os_zisk.Merkle.Update.{Writes, find_pos, write_update, write_insert}
use zksync_os_zisk.Merkle.Update.Spec.{inserted_leaf}

pub record UpdateRun (index : ℕ) (key value : B256) (w w' : Writes) : Type 0 where
  pub pos : ℕ
  pub i : ℕ
  pub leaf : TreeLeaf
  pub found : find_pos index w.pos_of ≡ some pos
  pub read : get_elem? w.leaves pos ≡ some (i, leaf)
  pub same_key : leaf.key ≡ key
  pub result : record w { leaves = set w.leaves pos (i, record leaf { value = value }) } ≡ w'

pub record InsertRun (prev_index : ℕ) (key value : B256) (w w' : Writes) : Type 0 where
  pub pos : ℕ
  pub i : ℕ
  pub prev : TreeLeaf
  pub next_pos : ℕ
  pub j : ℕ
  pub succ : TreeLeaf
  pub found : find_pos prev_index w.pos_of ≡ some pos
  pub read : get_elem? w.leaves pos ≡ some (i, prev)
  pub below : prev.key < key
  pub found_next : find_pos prev.next_index w.pos_of ≡ some next_pos
  pub read_next : get_elem? w.leaves next_pos ≡ some (j, succ)
  pub above : key < succ.key
  pub result :
      ◌≡◌ {A = Writes}
        (record {
          leaves =
              set
                (w.leaves ++ (w.next_tree_index, inserted_leaf prev key value) ∷ [])
                pos
                (i, record prev { next_index = w.next_tree_index });
          next_tree_index = (w.next_tree_index + 1) % 2 ^ 64;
          pos_of = (w.next_tree_index, length w.leaves) ∷ w.pos_of;
        })
        w'

pub write_update_run :
    (index : ℕ) (key value : B256) (w w' : Writes)
    → write_update index key value w ≡ ok w'
    → UpdateRun index key value w w'
unfolding write_update
write_update_run index key value w w' e = elim (Option-cases (find_pos index w.pos_of)) [
  | inl p ↦ absurd (ground arith)
  | inr (pos, p) ↦ elim (Option-cases (get_elem? w.leaves pos)) [
    | inl q ↦ absurd (ground arith)
    | inr ((i, leaf), q) ↦ record {
      pos = pos;
      i = i;
      leaf = leaf;
      found = p;
      read = q;
      same_key = ground arith;
      result = ground arith;
    }
  ]
]

pub write_insert_run :
    (index : ℕ) (key value : B256) (w w' : Writes)
    → write_insert index key value w ≡ ok w'
    → InsertRun index key value w w'
unfolding write_insert
write_insert_run index key value w w' e = elim (Option-cases (find_pos index w.pos_of)) [
  | inl p ↦ absurd (ground arith)
  | inr (pos, p) ↦ elim (Option-cases (get_elem? w.leaves pos)) [
    | inl q ↦ absurd (ground arith)
    | inr ((i, prev), q) ↦ elim (Option-cases (find_pos prev.next_index w.pos_of)) [
      | inl p' ↦ absurd (ground arith)
      | inr (next_pos, p') ↦ elim (Option-cases (get_elem? w.leaves next_pos)) [
        | inl q' ↦ absurd (ground arith)
        | inr ((j, succ), q') ↦ record {
          pos = pos;
          i = i;
          prev = prev;
          next_pos = next_pos;
          j = j;
          succ = succ;
          found = p;
          read = q;
          below = ground arith;
          found_next = p';
          read_next = q';
          above = ground arith;
          result = ground arith;
        }
      ]
    ]
  ]
]
