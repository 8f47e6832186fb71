-- ===== src/Merkle/Proof/Path.antt =====
-- A path that recovers the root of a tree starts from that tree's leaf.
use zksync_os_zisk.Prelude.{
  ℕ, zero, suc, ◌+◌, ◌*◌, ◌/◌, ◌%◌, ◌^◌, ◌<◌, ◌≡◌, ap, ◌∙◌, inl, inr, Bool, true, false, none, some,
  List, [], ◌∷◌, ◌==◌, ==→eq, ==→ne, Bool-cases, if◌then◌else◌, get_elem?, All, arith,
}
use native.Mathlib.Nat.{pow-suc}
use zksync_os_zisk.Merkle.Hash.{
  B256, IsB256, Blake2s, blake2s_compress, compress-IsB256, hash_leaf-IsB256, empty_subtree_hash,
  node_preimage, compress_inj, UnlessCollision, and_then,
}
use zksync_os_zisk.Merkle.Tree.{up, levels, up-IsB256, LevelsIn}
use zksync_os_zisk.Merkle.Proof.{sibling_at, recover_loop}

module _ ⦃H : Blake2s⦄ where
  pub empty-IsB256 : (depth : ℕ) → IsB256 (empty_subtree_hash depth)
  unfolding empty_subtree_hash
  empty-IsB256 zero = hash_leaf-IsB256 0 0 0
  empty-IsB256 (suc depth) = compress-IsB256 (empty_subtree_hash depth) (empty_subtree_hash depth)

  sibling_at-IsB256 :
      (siblings : List B256) (i depth : ℕ)
      → All IsB256 siblings
      → IsB256 (elim (get_elem? siblings i) [ some s ↦ s | none ↦ empty_subtree_hash depth ])
  sibling_at-IsB256 [] i depth h = empty-IsB256 depth
  sibling_at-IsB256 (s ∷ ss) zero depth h = h.0
  sibling_at-IsB256 (s ∷ ss) (suc i) depth h = sibling_at-IsB256 ss i depth h.1

  parent-IsB256 :
      (left : Bool) (hash sibling : B256)
      → IsB256 (if left then blake2s_compress hash sibling else blake2s_compress sibling hash)
  parent-IsB256 true hash sibling = compress-IsB256 hash sibling
  parent-IsB256 false hash sibling = compress-IsB256 sibling hash

module _ ⦃H : Blake2s⦄ {Q : List ℕ → Type 0} where
  -- One round: the hash of the parent fixes the hash of the child.
  child_of_parent :
      (nodes : ℕ → B256) (idx : ℕ) (hash sibling : B256)
      → ((i : ℕ) → Q (node_preimage (nodes (2 * i)) (nodes (2 * i + 1))))
      → ((i : ℕ) → IsB256 (nodes i))
      → IsB256 hash
      → IsB256 sibling
      → (if idx % 2 == 0 then blake2s_compress hash sibling else blake2s_compress sibling hash)
        ≡ up nodes (idx / 2)
      → UnlessCollision Q (hash ≡ nodes idx)
  child_of_parent nodes idx hash sibling known fits hh hs e = elim (Bool-cases (idx % 2 == 0)) [
    | inl even ↦
        and_then
          (compress_inj hash sibling _ _ (known (idx / 2)) hh hs (fits (2 * (idx / 2)))
            (fits (2 * (idx / 2) + 1)) (rw even at e))
          (λ p. inl (p.0 ∙ ap nodes (omega (arith, ==→eq _ _ even))))
    | inr odd ↦
        and_then
          (compress_inj sibling hash _ _ (known (idx / 2)) hs hh (fits (2 * (idx / 2)))
            (fits (2 * (idx / 2) + 1)) (rw odd at e))
          (λ p. inl (p.1 ∙ ap nodes (omega (arith, ==→ne _ _ odd))))
  ]

  pub recover_loop_sound :
      (rounds depth : ℕ) (siblings : List B256) (idx : ℕ) (hash : B256) (nodes : ℕ → B256)
      → LevelsIn Q rounds nodes
      → ((i : ℕ) → IsB256 (nodes i))
      → All IsB256 siblings
      → IsB256 hash
      → idx < 2 ^ rounds
      → recover_loop rounds depth siblings idx hash ≡ levels rounds nodes 0
      → UnlessCollision Q (hash ≡ nodes idx)
  unfolding recover_loop levels sibling_at
  recover_loop_sound zero depth siblings idx hash nodes known fits hs hh hi e =
      inl (e ∙ ap nodes (omega arith))
  recover_loop_sound (suc rounds) depth siblings idx hash nodes known fits hs hh hi e =
      and_then
        (recover_loop_sound rounds (depth + 1) siblings (idx / 2) _ (up nodes) known.1
          (up-IsB256 nodes) hs (parent-IsB256 (idx % 2 == 0) hash (sibling_at siblings depth))
          (omega (arith, pow-suc 2 rounds)) e)
        (child_of_parent nodes idx hash (sibling_at siblings depth) known.0 fits hh
          (sibling_at-IsB256 siblings depth depth hs))
