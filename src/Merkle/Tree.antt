-- ===== src/Merkle/Tree.antt =====
-- The tree that the proofs of lib/src/merkle.rs are about: every leaf in a list, leaf `i` at position
-- `i`, hashed level by level up to depth 64. Positions from the list's end on hold the empty leaf.
use zksync_os_zisk.Prelude.{
  ℕ, zero, suc, ◌+◌, ◌*◌, ◌≤◌, ◌<◌, ◌≡◌, ◌≢◌, refl, ◌⊎◌, inl, inr, Option, none, some, List, [],
  ◌∷◌, ◌==◌, ==→eq, Bool-cases, if◌then◌else◌, length, get_elem?, arith,
}
use zksync_os_zisk.Merkle.Hash.{
  B256, IsB256, IsU64, tree_depth, Blake2s, blake2s_compress, hash_leaf, hash_leaf-IsB256,
  compress-IsB256, empty_subtree_hash, node_preimage, leaf_preimage,
}

pub record TreeLeaf : Type 0 where
  pub key : B256
  pub value : B256
  pub next_index : ℕ

-- The ranges of the source's types.
pub record IsTreeLeaf (leaf : TreeLeaf) : Type 0 where
  pub key_fits : IsB256 leaf.key
  pub value_fits : IsB256 leaf.value
  pub next_fits : IsU64 leaf.next_index

abbrev pub Store : Type 0
Store = List TreeLeaf

-- The leaf at position `i` of the store.
abbrev pub HasLeaf : Store → ℕ → TreeLeaf → Type 0
HasLeaf s i leaf = get_elem? s i ≡ some leaf

-- The leaves form one list, linked by `next_index` and sorted by key, with no key left out between a
-- leaf and its successor. Position 0 holds the lower guard.
pub record IsLinked (s : Store) : Type 0 where
  pub lower_guard : (leaf : TreeLeaf) → HasLeaf s 0 leaf → leaf.key ≡ 0
  pub closed : (i : ℕ) (leaf : TreeLeaf) → HasLeaf s i leaf → leaf.next_index < length s
  pub distinct : (i j : ℕ) (a b : TreeLeaf) → HasLeaf s i a → HasLeaf s j b → a.key ≡ b.key → i ≡ j
  pub gapless :
      (i : ℕ) (a succ : TreeLeaf)
      → HasLeaf s i a
      → HasLeaf s a.next_index succ
      → (j : ℕ) (b : TreeLeaf) → HasLeaf s j b
      → (b.key ≤ a.key) ⊎ (succ.key ≤ b.key)

-- The value that the store holds under a key.
unfoldable pub value_of : Store → B256 → Option B256
value_of [] k = none
value_of (leaf ∷ s) k = if leaf.key == k then some leaf.value else value_of s k

-- With distinct keys, the value of a leaf is what the store holds under its key.
pub value_of-eq-some :
    (s : Store) (i : ℕ) (leaf : TreeLeaf)
    → ((i j : ℕ) (a b : TreeLeaf) → HasLeaf s i a → HasLeaf s j b → a.key ≡ b.key → i ≡ j)
    → HasLeaf s i leaf
    → value_of s leaf.key ≡ some leaf.value
unfolding value_of
value_of-eq-some [] i leaf d h = cc
value_of-eq-some (x ∷ s) zero leaf d h = ground arith
value_of-eq-some (x ∷ s) (suc i) leaf d h = elim (Bool-cases (x.key == leaf.key)) [
  | inl same ↦ absurd (omega (arith, d 0 (suc i) x leaf refl h (==→eq _ _ same)))
  | inr other ↦
      rw other
        (value_of-eq-some s i leaf (λ m n a b p q e. suc-inj (d (suc m) (suc n) a b p q e)) h)
]
  where
    suc-inj : {m n : ℕ} → suc m ≡ suc n → m ≡ n
    suc-inj e = omega arith

pub value_of-eq-none :
    (s : Store) (k : B256)
    → ((i : ℕ) (leaf : TreeLeaf) → HasLeaf s i leaf → leaf.key ≢ k)
    → value_of s k ≡ none
unfolding value_of
value_of-eq-none [] k h = refl
value_of-eq-none (x ∷ s) k h = elim (Bool-cases (x.key == k)) [
  | inl same ↦ absurd (h 0 x refl (==→eq _ _ same))
  | inr other ↦ rw other (value_of-eq-none s k (λ i leaf p. h (suc i) leaf p))
]

module _ ⦃H : Blake2s⦄ where
  abbrev pub leaf_hash : TreeLeaf → B256
  leaf_hash leaf = hash_leaf leaf.key leaf.value leaf.next_index

  abbrev pub slot_hash : Option TreeLeaf → B256
  slot_hash (some leaf) = leaf_hash leaf
  slot_hash none = empty_subtree_hash 0

  abbrev pub leaf_hashes : Store → ℕ → B256
  leaf_hashes s i = slot_hash (get_elem? s i)

  -- The level above a level of node hashes.
  abbrev pub up : (ℕ → B256) → ℕ → B256
  up nodes i = blake2s_compress (nodes (2 * i)) (nodes (2 * i + 1))

  unfoldable pub levels : ℕ → (ℕ → B256) → ℕ → B256
  levels zero nodes = nodes
  levels (suc n) nodes = levels n (up nodes)

  -- Both hashes of every node of the first `n` levels above the nodes are in `Q`.
  abbrev pub LevelsIn : (List ℕ → Type 0) → ℕ → (ℕ → B256) → Type 0
  LevelsIn Q zero nodes = Unit
  LevelsIn Q (suc n) nodes =
      ((i : ℕ) → Q (node_preimage (nodes (2 * i)) (nodes (2 * i + 1)))) × LevelsIn Q n (up nodes)

  -- The byte strings that those levels hash.
  abbrev pub LevelsHashed : ℕ → (ℕ → B256) → List ℕ → Type 0
  LevelsHashed zero nodes m = ⊥
  LevelsHashed (suc n) nodes m =
      ((i : ℕ) × (m ≡ node_preimage (nodes (2 * i)) (nodes (2 * i + 1))))
      ⊎ LevelsHashed n (up nodes) m

  pub LevelsHashed-LevelsIn :
      (Q : List ℕ → Type 0) (n : ℕ) (nodes : ℕ → B256)
      → ((m : List ℕ) → LevelsHashed n nodes m → Q m)
      → LevelsIn Q n nodes
  LevelsHashed-LevelsIn Q zero nodes h = tt
  LevelsHashed-LevelsIn Q (suc n) nodes h = (
    λ i. h (node_preimage (nodes (2 * i)) (nodes (2 * i + 1))) (inl (i, refl)),
    LevelsHashed-LevelsIn Q n (up nodes) (λ m x. h m (inr x)),
  )

  abbrev pub slot_preimage : Option TreeLeaf → List ℕ
  slot_preimage (some leaf) = leaf_preimage leaf.key leaf.value leaf.next_index
  slot_preimage none = leaf_preimage 0 0 0

  -- The byte strings that the tree of a store hashes: those of its positions, and those of its nodes.
  abbrev pub TreeHashed : Store → List ℕ → Type 0
  TreeHashed s m =
      ((i : ℕ) × (m ≡ slot_preimage (get_elem? s i))) ⊎ LevelsHashed tree_depth (leaf_hashes s) m

  unfoldable pub tree_root : Store → B256
  tree_root s = levels tree_depth (leaf_hashes s) 0

  pub slot_hash-IsB256 : (o : Option TreeLeaf) → IsB256 (slot_hash o)
  unfolding empty_subtree_hash
  slot_hash-IsB256 (some leaf) = hash_leaf-IsB256 leaf.key leaf.value leaf.next_index
  slot_hash-IsB256 none = hash_leaf-IsB256 0 0 0

  pub up-IsB256 : (nodes : ℕ → B256) (i : ℕ) → IsB256 (up nodes i)
  up-IsB256 nodes i = compress-IsB256 (nodes (2 * i)) (nodes (2 * i + 1))
