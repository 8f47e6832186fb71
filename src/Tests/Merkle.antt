-- ===== src/Tests/Merkle.antt =====
-- The theorems on storage proofs and on the batch tree update, for the tree of the two guard leaves.
use zksync_os_zisk.Prelude.{
  ℕ, zero, suc, ◌≡◌, refl, ap, some, [], ◌∷◌, length, get_elem?, ok, arith,
}
use zksync_os_zisk.Prelude.Bytes.{be_bytes, le_bytes}
use zksync_os_zisk.Merkle.Hash.{
  B256, UnlessCollision, hash_leaf, hash_leaf-IsB256, empty_subtree_hash,
}
use zksync_os_zisk.Merkle.Tree.{TreeHashed, TreeLeaf, Store, IsLinked, value_of, tree_root}
use zksync_os_zisk.Merkle.Proof.{StorageProof, existing, recover_root, verify}
use zksync_os_zisk.Merkle.Proof.Sound.{IsStorageProof, verify_sound}
use zksync_os_zisk.Merkle.Update.{BatchTreeUpdate, insert, update}
use zksync_os_zisk.Merkle.Update.Values.{overlay}
use zksync_os_zisk.Merkle.Walk.{apply}
use zksync_os_zisk.Merkle.Walk.Refines.{IsBatchTreeUpdate, apply_refines}
use zksync_os_zisk.Tests.Toy.{
  toy_blake2s, toy_hash, some_inj, guards, tree_root-guards, guards-StoreFits, guards-IsLinked,
}

abbrev pub upper_key : B256
upper_key = 115792089237316195423570985008687907853269984665640564039457584007913129639935

abbrev upper_proof : StorageProof
upper_proof =
    existing (record { index = 1; value = 5; next_index = 1; siblings = hash_leaf 0 0 1 ∷ [] })

upper_proof-IsStorageProof : IsStorageProof upper_proof
upper_proof-IsStorageProof = record {
  index_fits = omega arith;
  value_fits = omega arith;
  next_fits = omega arith;
  siblings_fit = (hash_leaf-IsB256 0 0 1, tt);
}

upper_proof_verifies : verify upper_proof upper_key ≡ ok (804, some 5)
unfolding verify recover_root empty_subtree_hash hash_leaf toy_blake2s toy_hash be_bytes le_bytes
upper_proof_verifies = refl

-- The value 5 under the upper guard's key.
verify_sound_example : UnlessCollision (TreeHashed guards) (value_of guards upper_key ≡ some 5)
verify_sound_example =
    verify_sound upper_proof upper_key guards (some 5) upper_proof-IsStorageProof (omega arith)
      (omega arith) guards-StoreFits guards-IsLinked (rw tree_root-guards upper_proof_verifies)

-- Key 100 is inserted with value 7 after the lower guard, then the upper guard gets the value 9.
abbrev pub two_writes : BatchTreeUpdate
two_writes = record {
  operations = insert 0 ∷ update 1 ∷ [];
  entries = (100, 7) ∷ (upper_key, 9) ∷ [];
  sorted_leaves =
      (0, record { key = 0; value = 0; next_index = 1 })
      ∷ (1, record { key = upper_key; value = 5; next_index = 1 })
      ∷ [];
  intermediate_hashes = [];
  leaf_count_before = 2;
}

pub two_writes-IsBatchTreeUpdate : IsBatchTreeUpdate two_writes
two_writes-IsBatchTreeUpdate = record {
  leaves_fit = λ p i leaf h. guards-StoreFits p leaf (shown p i leaf h);
  hashes_fit = tt;
}
  where
    shown :
        (p i : ℕ) (leaf : TreeLeaf)
        → get_elem? two_writes.sorted_leaves p ≡ some (i, leaf)
        → get_elem? guards p ≡ some leaf
    shown zero i leaf h = ap some (ap (λ q. q.1) (some_inj h))
    shown (suc zero) i leaf h = ap some (ap (λ q. q.1) (some_inj h))
    shown (suc (suc p)) i leaf h = absurd (cc)

apply-two_writes : apply two_writes 804 ≡ ok (489, 3)
unfolding apply empty_subtree_hash hash_leaf toy_blake2s toy_hash be_bytes le_bytes
apply-two_writes = refl

-- The tree of root 489 has three leaves, and the values 7 and 9.
apply_refines_example : UnlessCollision (TreeHashed guards) (
    (s' : Store) × (489 ≡ tree_root s')
    × (3 ≡ length s')
    × IsLinked s'
    × ((j : B256)
        → value_of s' j ≡ overlay two_writes.operations two_writes.entries (value_of guards) j))
apply_refines_example =
    apply_refines two_writes guards 489 3 two_writes-IsBatchTreeUpdate guards-StoreFits
      guards-IsLinked refl (omega arith) (rw tree_root-guards apply-two_writes)
