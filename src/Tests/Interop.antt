-- ===== src/Tests/Interop.antt =====
-- The interop reads, for a tree that holds none of their slots.
use zksync_os_zisk.Prelude.{◌⊎◌, ◌^◌, ◌<◌, ◌≡◌, refl, [], ◌∷◌, ok, arith}
use zksync_os_zisk.Prelude.Bytes.{be_bytes, le_bytes}
use zksync_os_zisk.Types.{InteropCommitmentTreeProofs}
use zksync_os_zisk.Merkle.Hash.{UnlessCollision, hash_leaf, hash_leaf-IsB256, empty_subtree_hash}
use zksync_os_zisk.Merkle.Tree.{TreeHashed, value_of}
use zksync_os_zisk.Merkle.Proof.{StorageProof, SlotProofEntry, non_existing, recover_root}
use zksync_os_zisk.Merkle.Proof.Sound.{IsStorageProof, IsSlotProofEntry}
use zksync_os_zisk.AccountProps.{derive_flat_storage_key}
use zksync_os_zisk.Executor.Interop.{
  InteropCommitmentTreeRoots, nodes_root_slot, derive_sl_chain_id,
  derive_interop_commitment_tree_roots, system_context_address, interop_commitment_tree_address,
}
use zksync_os_zisk.Executor.Interop.Sound.{
  stored, HasKeys, AreTreeProofs, commitment_tree_root, derive_sl_chain_id_sound,
  derive_interop_commitment_tree_roots_sound,
}
use zksync_os_zisk.Tests.Toy.{
  toy_blake2s, toy_keccak, toy_hash, guards, tree_root-guards, guards-StoreFits, guards-IsLinked,
}
use zksync_os_zisk.Tests.Merkle.{upper_key}

abbrev lower : SlotProofEntry
lower = record { index = 0; value = 0; next_index = 1; siblings = hash_leaf upper_key 5 1 ∷ [] }

abbrev upper : SlotProofEntry
upper = record { index = 1; value = 5; next_index = 1; siblings = hash_leaf 0 0 1 ∷ [] }

-- No key between the two guards is held.
abbrev absent : StorageProof
absent =
    non_existing (record { entry = lower; leaf_key = 0 })
      (record { entry = upper; leaf_key = upper_key })

lower-IsSlotProofEntry : IsSlotProofEntry lower
lower-IsSlotProofEntry = record {
  index_fits = omega arith;
  value_fits = omega arith;
  next_fits = omega arith;
  siblings_fit = (hash_leaf-IsB256 upper_key 5 1, tt);
}

upper-IsSlotProofEntry : IsSlotProofEntry upper
upper-IsSlotProofEntry = record {
  index_fits = omega arith;
  value_fits = omega arith;
  next_fits = omega arith;
  siblings_fit = (hash_leaf-IsB256 0 0 1, tt);
}

absent-IsStorageProof : IsStorageProof absent
absent-IsStorageProof = (lower-IsSlotProofEntry, omega arith, upper-IsSlotProofEntry, omega arith)

chain_id_read : derive_sl_chain_id absent 804 ≡ ok 0
unfolding derive_sl_chain_id recover_root empty_subtree_hash hash_leaf toy_blake2s toy_hash be_bytes
    le_bytes
chain_id_read = refl

context_key : 0 < derive_flat_storage_key system_context_address 0
unfolding derive_flat_storage_key toy_blake2s toy_hash be_bytes
context_key = omega arith

derive_sl_chain_id_sound_example :
    UnlessCollision
      (TreeHashed guards)
      ((0 ≡ stored guards system_context_address 0) × (0 < 2 ^ 64))
derive_sl_chain_id_sound_example =
    derive_sl_chain_id_sound absent guards 0 guards-StoreFits guards-IsLinked absent-IsStorageProof
      context_key (rw tree_root-guards chain_id_read)

abbrev absent_proofs : InteropCommitmentTreeProofs
absent_proofs = record {
  height_begin = absent;
  root_begin = absent;
  height_end = absent;
  root_end = absent;
}

absent_proofs-AreTreeProofs : AreTreeProofs absent_proofs
absent_proofs-AreTreeProofs = record {
  height_begin = absent-IsStorageProof;
  root_begin = absent-IsStorageProof;
  height_end = absent-IsStorageProof;
  root_end = absent-IsStorageProof;
}

abbrev zeros : InteropCommitmentTreeRoots
zeros = record { begin = 0; end = 0 }

zeros_read : derive_interop_commitment_tree_roots absent_proofs 804 804 ≡ ok zeros
unfolding derive_interop_commitment_tree_roots recover_root empty_subtree_hash hash_leaf toy_blake2s
    toy_keccak toy_hash be_bytes le_bytes
zeros_read = refl

guards-HasKeys : HasKeys guards interop_commitment_tree_address 0 2
unfolding derive_flat_storage_key nodes_root_slot stored value_of toy_blake2s toy_keccak toy_hash
    be_bytes
guards-HasKeys = (omega arith, omega arith)

derive_interop_commitment_tree_roots_sound_example :
    UnlessCollision
      (λ m. TreeHashed guards m ⊎ TreeHashed guards m)
      ((zeros.begin ≡ commitment_tree_root guards) × (zeros.end ≡ commitment_tree_root guards))
derive_interop_commitment_tree_roots_sound_example =
    derive_interop_commitment_tree_roots_sound absent_proofs guards guards zeros guards-StoreFits
      guards-IsLinked guards-StoreFits guards-IsLinked absent_proofs-AreTreeProofs guards-HasKeys
      guards-HasKeys (rw tree_root-guards zeros_read)
