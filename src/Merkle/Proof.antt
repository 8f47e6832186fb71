-- ===== src/Merkle/Proof.antt =====
-- Storage proofs of lib/src/merkle.rs: `SlotProofEntry`, `StorageProof` and their verification.
pub mod Path
pub mod Sound
use zksync_os_zisk.Prelude.{
  ℕ, zero, suc, ◌+◌, ◌/◌, ◌%◌, Bool, Option, none, some, List, [], ◌∷◌, ◌==◌, leb, not,
  if◌then◌else◌, get_elem?, Result, ok, err, ◌>>=◌, ◌>>◌, guard,
}
use zksync_os_zisk.Merkle.Hash.{
  B256, Blake2s, tree_depth, blake2s_compress, hash_leaf, empty_subtree_hash,
}

pub record SlotProofEntry : Type 0 where
  pub index : ℕ
  pub value : B256
  pub next_index : ℕ
  pub siblings : List B256

pub record NeighborProofEntry : Type 0 where
  pub entry : SlotProofEntry
  pub leaf_key : B256

pub data StorageProof : Type 0 where
  existing : SlotProofEntry → StorageProof
  non_existing : NeighborProofEntry → NeighborProofEntry → StorageProof

pub data ProofError : Type 0 where
  left_neighbor_not_smaller right_neighbor_not_larger : ProofError
  neighbors_not_adjacent root_mismatch : ProofError

module _ ⦃H : Blake2s⦄ where
  -- `siblings.get(depth).copied().unwrap_or(empty[depth])`
  pub sibling_at : List B256 → ℕ → B256
  sibling_at siblings depth = elim (get_elem? siblings depth) [
    | some sibling ↦ sibling
    | none ↦ empty_subtree_hash depth
  ]

  -- The loop of `recover_root`, with the rounds that are left.
  pub recover_loop : ℕ → ℕ → List B256 → ℕ → B256 → B256
  recover_loop zero depth siblings idx hash = hash
  recover_loop (suc rounds) depth siblings idx hash =
      let sibling = sibling_at siblings depth in
      recover_loop rounds (depth + 1) siblings (idx / 2)
        (if idx % 2 == 0 then blake2s_compress hash sibling else blake2s_compress sibling hash)

  unfoldable pub recover_root : SlotProofEntry → B256 → B256
  unfolding recover_loop sibling_at
  recover_root e leaf_key =
      recover_loop tree_depth 0 e.siblings e.index (hash_leaf leaf_key e.value e.next_index)

  unfoldable pub verify : StorageProof → B256 → Result ProofError (B256 × Option B256)
  verify (existing e) flat_key = ok (recover_root e flat_key, some e.value)
  verify (non_existing left right) flat_key = do
    guard (not (leb flat_key left.leaf_key)) left_neighbor_not_smaller
    guard (not (leb right.leaf_key flat_key)) right_neighbor_not_larger
    guard (left.entry.next_index == right.entry.index) neighbors_not_adjacent
    let root_left = recover_root left.entry left.leaf_key
    let root_right = recover_root right.entry right.leaf_key
    guard (root_left == root_right) root_mismatch
    ok (root_left, none)
