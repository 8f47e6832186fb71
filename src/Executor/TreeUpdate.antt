-- ===== src/Executor/TreeUpdate.antt =====
-- `verify_tree_update` of lib/src/executor/verify.rs: the writes of the execution against the tree
-- update of the batch. A hash map is an association list, whose first entry of a key counts.
pub mod Writes
pub mod Refines
use zksync_os_zisk.Prelude.{
  ℕ, zero, suc, ◌+◌, Bool, true, false, Option, none, some, List, [], ◌∷◌, map, ◌==◌, if◌then◌else◌,
  length, Result, ok, err, ◌>>=◌, ◌>>◌, guard, from_option,
}
use zksync_os_zisk.Merkle.Hash.{B256, Blake2s}
use zksync_os_zisk.Merkle.Update.{BatchTreeUpdate, Panic}
use zksync_os_zisk.Merkle.Walk.{apply}
use zksync_os_zisk.Types.{BatchMeta}

abbrev pub Entries : Type 0
Entries = List (B256 × B256)

unfoldable pub lookup : B256 → Entries → Option B256
lookup key [] = none
lookup key ((k, v) ∷ rest) = if k == key then some v else lookup key rest

unfoldable pub contains : B256 → List B256 → Bool
contains key [] = false
contains key (k ∷ rest) = if k == key then true else contains key rest

-- `iter().map(|(k, _)| *k).collect()` into a hash set
unfoldable pub distinct_keys : Entries → List B256
unfolding contains
distinct_keys [] = []
distinct_keys ((k, v) ∷ rest) =
    let keys = distinct_keys rest in if contains k keys then keys else k ∷ keys

-- One constructor for each assertion, and one for a panic inside `apply`.
pub data TreeUpdatePanic : Type 0 where
  length_mismatch duplicate_keys write_count_mismatch : TreeUpdatePanic
  key_not_written value_mismatch leaf_count_mismatch : TreeUpdatePanic
  writes_without_update : TreeUpdatePanic
  apply_panicked : Panic → TreeUpdatePanic

-- `for (key, tree_val) in &tree_update.entries`
unfoldable pub check_entries : Entries → Entries → Result TreeUpdatePanic (Unit {0})
unfolding lookup
check_entries revm_writes [] = ok tt
check_entries revm_writes ((key, tree_val) ∷ rest) = do
  computed_val ← from_option (lookup key revm_writes) key_not_written
  guard (tree_val == computed_val) value_mismatch
  check_entries revm_writes rest

abbrev pub or_panic {ℓ} : {A : Type ℓ} → Result Panic A → Result TreeUpdatePanic A
or_panic (ok a) = ok a
or_panic (err e) = err (apply_panicked e)

module _ ⦃H : Blake2s⦄ where
  -- The arm of a batch that has a tree update.
  unfoldable pub verify_update :
      BatchMeta → BatchTreeUpdate → Entries → Result TreeUpdatePanic (B256 × ℕ)
  unfolding distinct_keys check_entries apply
  verify_update meta u revm_writes = do
    guard (length u.operations == length u.entries) length_mismatch
    guard (length (distinct_keys u.entries) == length u.entries) duplicate_keys
    guard (length revm_writes == length u.entries) write_count_mismatch
    check_entries revm_writes u.entries
    guard (u.leaf_count_before == meta.leaf_count_before) leaf_count_mismatch
    or_panic (apply u meta.tree_root_before)

  -- The two arms of the match on `meta.tree_update`.
  unfoldable pub verify_optional :
      BatchMeta → Entries → Option BatchTreeUpdate → Result TreeUpdatePanic (B256 × ℕ)
  unfolding verify_update
  verify_optional meta revm_writes none = do
    guard (length revm_writes == 0) writes_without_update
    ok (meta.tree_root_before, meta.leaf_count_before)
  verify_optional meta revm_writes (some u) = verify_update meta u revm_writes

  unfoldable pub verify_tree_update : BatchMeta → Entries → Result TreeUpdatePanic (B256 × ℕ)
  unfolding verify_optional
  verify_tree_update meta revm_writes = verify_optional meta revm_writes meta.tree_update
