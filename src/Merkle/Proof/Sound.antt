-- ===== src/Merkle/Proof/Sound.antt =====
-- What a verified storage proof says about the tree whose root it recovers.
use zksync_os_zisk.Prelude.{
  ℕ, List, ◌<◌, ◌≡◌, refl, ap, sym, ◌∙◌, ◌⊎◌, inl, inr, Option, none, some, ◌==◌, ==→eq, ==→ne,
  Bool-cases, get_elem?, All, ok, arith,
}
use zksync_os_zisk.Merkle.Hash.{
  B256, IsB256, IsU64, Blake2s, hash_leaf, hash_leaf-IsB256, empty_subtree_hash, hash_leaf_inj,
  UnlessCollision, and_then,
}
use zksync_os_zisk.Merkle.Tree.{
  TreeLeaf, IsTreeLeaf, Store, HasLeaf, IsLinked, value_of, value_of-eq-some, value_of-eq-none,
  slot_hash, leaf_hashes, tree_root, slot_hash-IsB256, slot_preimage, TreeHashed,
  LevelsHashed-LevelsIn,
}
use zksync_os_zisk.Merkle.Proof.{
  SlotProofEntry, NeighborProofEntry, StorageProof, existing, non_existing, recover_root, verify,
}
use zksync_os_zisk.Merkle.Proof.Path.{recover_loop_sound}

-- The ranges of the source's types.
pub record IsSlotProofEntry (e : SlotProofEntry) : Type 0 where
  pub index_fits : IsU64 e.index
  pub value_fits : IsB256 e.value
  pub next_fits : IsU64 e.next_index
  pub siblings_fit : All IsB256 e.siblings

abbrev pub IsStorageProof : StorageProof → Type 0
IsStorageProof (existing e) = IsSlotProofEntry e
IsStorageProof (non_existing l r) =
    IsSlotProofEntry l.entry × IsB256 l.leaf_key × IsSlotProofEntry r.entry × IsB256 r.leaf_key

abbrev pub StoreFits : Store → Type 0
StoreFits s = (i : ℕ) (leaf : TreeLeaf) → HasLeaf s i leaf → IsTreeLeaf leaf

-- The leaf that a proof entry shows.
abbrev pub shown_leaf : SlotProofEntry → B256 → TreeLeaf
shown_leaf e key = record { key = key; value = e.value; next_index = e.next_index }

module _ ⦃H : Blake2s⦄ where
  -- Two leaves, or a leaf and an empty position, of one hash.
  slot_sound :
      {Q : List ℕ → Type 0} (leaf : TreeLeaf) (o : Option TreeLeaf)
      → Q (slot_preimage o)
      → IsTreeLeaf leaf
      → ((x : TreeLeaf) → o ≡ some x → IsTreeLeaf x)
      → 0 < leaf.key ⊎ (0 < leaf.next_index)
      → hash_leaf leaf.key leaf.value leaf.next_index ≡ slot_hash o
      → UnlessCollision Q (o ≡ some leaf)
  unfolding empty_subtree_hash
  slot_sound leaf none known fits fits' nonzero e =
      and_then
        (hash_leaf_inj _ _ _ 0 0 0 known fits.key_fits fits.value_fits fits.next_fits (omega arith)
          (omega arith) (omega arith) e)
        (λ p. absurd (omega arith))
  slot_sound leaf (some x) known fits fits' nonzero e =
      let fx = fits' x refl in
      and_then
        (hash_leaf_inj _ _ _ x.key x.value x.next_index known fits.key_fits fits.value_fits
          fits.next_fits fx.key_fits fx.value_fits fx.next_fits e)
        (λ p.
          inl
            (ap some (λ i. record { key = sym p.0 i; value = sym p.1 i; next_index = sym p.2 i })))

  -- A proof entry that recovers the root shows the leaf at its index.
  pub recover_root_sound :
      (e : SlotProofEntry) (key : B256) (s : Store)
      → IsSlotProofEntry e
      → IsB256 key
      → StoreFits s
      → (0 < key) ⊎ (0 < e.next_index)
      → recover_root e key ≡ tree_root s
      → UnlessCollision (TreeHashed s) (HasLeaf s e.index (shown_leaf e key))
  unfolding recover_root tree_root
  recover_root_sound e key s he hk hs nonzero eq =
      and_then
        (recover_loop_sound 64 0 e.siblings e.index _ (leaf_hashes s)
          (LevelsHashed-LevelsIn (TreeHashed s) 64 (leaf_hashes s) (λ m x. inr x))
          (λ i. slot_hash-IsB256 (get_elem? s i)) he.siblings_fit
          (hash_leaf-IsB256 key e.value e.next_index) he.index_fits eq)
        (slot_sound (shown_leaf e key) (get_elem? s e.index) (inl (e.index, refl))
          (record { key_fits = hk; value_fits = he.value_fits; next_fits = he.next_fits })
          (hs e.index) nonzero)

  -- Two neighbours that bracket a key, in a linked tree, leave no leaf for it.
  bracket_excludes :
      (s : Store) (l r : TreeLeaf) (i k : ℕ)
      → IsLinked s
      → HasLeaf s i l
      → HasLeaf s l.next_index r
      → l.key < k
      → k < r.key
      → value_of s k ≡ none
  bracket_excludes s l r i k linked hl hr below above = value_of-eq-none s k (λ j b hb e.
      elim (linked.gapless i l r hl hr j b hb) [
        | inl p ↦ absurd (omega arith)
        | inr p ↦ absurd (omega arith)
      ])

  non_existing_sound :
      (left right : NeighborProofEntry) (k : B256) (s : Store)
      → IsStorageProof (non_existing left right)
      → StoreFits s
      → IsLinked s
      → left.leaf_key < k
      → k < right.leaf_key
      → left.entry.next_index ≡ right.entry.index
      → recover_root left.entry left.leaf_key ≡ tree_root s
      → recover_root right.entry right.leaf_key ≡ tree_root s
      → UnlessCollision (TreeHashed s) (value_of s k ≡ none)
  non_existing_sound left right k s typed fits linked below above adjacent el er =
      and_then
        (recover_root_sound right.entry right.leaf_key s typed.2 typed.3 fits (inl (omega arith))
          er)
        (λ hr.
          and_then
            (recover_root_sound left.entry left.leaf_key s typed.0 typed.1 fits (inr (not_first hr))
              el)
            (λ hl. inl (
              bracket_excludes s _ (shown_leaf right.entry right.leaf_key) left.entry.index k linked
                hl (rw adjacent hr) below above)))
    where
      not_first :
          HasLeaf s right.entry.index (shown_leaf right.entry right.leaf_key)
          → 0 < left.entry.next_index
      not_first hr = elim (Bool-cases (right.entry.index == 0)) [
        | inl first ↦ absurd (omega (arith, linked.lower_guard _ (rw (==→eq _ _ first) at hr)))
        | inr later ↦ omega (arith, ==→ne _ _ later)
      ]

  accepted_bracket :
      (left right : NeighborProofEntry) (k root : B256) (answer : Option B256)
      → verify (non_existing left right) k ≡ ok (root, answer)
      → (left.leaf_key < k)
        × (k < right.leaf_key)
        × (left.entry.next_index ≡ right.entry.index)
        × (recover_root left.entry left.leaf_key ≡ root)
        × (recover_root right.entry right.leaf_key ≡ root)
        × (none ≡ answer)
  unfolding verify
  accepted_bracket left right k root answer eq = ground arith

  -- Take a linked tree whose root a proof recovers, and a non-zero key. If verification accepts the
  -- proof, its answer (a value, or that the key is absent) is what the tree holds under that key,
  -- unless a second preimage of a byte string that the tree hashes is at hand.
  pub verify_sound :
      (p : StorageProof) (k : B256) (s : Store) (answer : Option B256)
      → IsStorageProof p
      → IsB256 k
      → 0 < k
      → StoreFits s
      → IsLinked s
      → verify p k ≡ ok (tree_root s, answer)
      → UnlessCollision (TreeHashed s) (value_of s k ≡ answer)
  unfolding verify
  verify_sound (existing e) k s answer typed hk pos fits linked eq =
      let value : some e.value ≡ answer = ground arith in
      and_then (recover_root_sound e k s typed hk fits (inl pos) (ground arith))
        (λ h. inl (value_of-eq-some s e.index (shown_leaf e k) linked.distinct h ∙ value))
  verify_sound (non_existing left right) k s answer typed hk pos fits linked eq =
      let (below, above, adjacent, el, er, absent) =
        accepted_bracket left right k (tree_root s) answer eq in
      and_then (non_existing_sound left right k s typed fits linked below above adjacent el er)
        (λ h. inl (h ∙ absent))
