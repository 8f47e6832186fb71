-- ===== src/Tests/Toy.antt =====
-- A toy hash, a tree of the two guard leaves, and its root computed level by level.
use mathlib.Core.Path.{fun_ext}
use zksync_os_zisk.Prelude.{
  ℕ, zero, suc, ◌+◌, ◌*◌, ◌%◌, ◌^◌, ◌≤◌, ◌<◌, ◌≡◌, refl, ap, sym, subst, ◌∙◌, Option, none, some,
  List, [], ◌∷◌, map, length, get_or, ◌⊎◌, inl, inr, arith,
}
use zksync_os_zisk.Prelude.Bytes.{be_bytes, le_bytes}
use zksync_os_zisk.Merkle.Hash.{
  B256, Blake2s, node_preimage, blake2s_compress, hash_leaf, empty_subtree_hash,
}
use zksync_os_zisk.Merkle.Tree.{
  TreeLeaf, IsTreeLeaf, Store, HasLeaf, IsLinked, leaf_hash, leaf_hashes, levels, tree_root,
}
use zksync_os_zisk.Merkle.Proof.Sound.{StoreFits}
use zksync_os_zisk.FixedHeight.{fold_leaves, empty_loop, full_levels, level_loop, pair_loop}
use zksync_os_zisk.FixedHeight.Root.{pad, empty_loop-IsTable, fold_leaves_lem}
use zksync_os_zisk.Commitment.Hash.{Keccak}

-- A few bytes and the length, mixed.
unfoldable pub toy_hash : ℕ → List ℕ → B256
toy_hash seed m =
    (seed
      + get_or m 0 0
      + 3 * get_or m 31 0
      + 5 * get_or m 39 0
      + 7 * get_or m 63 0
      + 11 * get_or m 71 0
      + length m)
    % 2 ^ 16

pub toy_hash-IsB256 : (seed : ℕ) (m : List ℕ) → toy_hash seed m < 2 ^ 256
unfolding toy_hash
toy_hash-IsB256 seed m = omega arith

instance unfoldable pub toy_blake2s : Blake2s
toy_blake2s = record {
  blake2s = λ m. toy_hash 7 m;
  node_hash = λ l r. toy_hash 7 (node_preimage l r);
  blake2s-IsB256 = λ m. toy_hash-IsB256 7 m;
  node_hash_lem = λ l r. refl;
}

instance unfoldable pub toy_keccak : Keccak
toy_keccak = record { keccak256 = λ m. toy_hash 11 m; keccak256-IsB256 = λ m. toy_hash-IsB256 11 m }

-- The root as the in-place fold computes it.
abbrev dense_root : Store → Option B256
dense_root s =
    fold_leaves (λ l r. blake2s_compress l r) (map (λ leaf. leaf_hash leaf) s)
      (empty_loop (λ l r. blake2s_compress l r) 64 (empty_subtree_hash 0))

levels-full :
    (n : ℕ) (f : ℕ → B256) → levels n f 0 ≡ full_levels (λ l r. blake2s_compress l r) n f 0
unfolding levels full_levels
levels-full zero f = refl
levels-full (suc n) f = levels-full n (λ i. blake2s_compress (f (2 * i)) (f (2 * i + 1)))

leaf_hashes-pad :
    (s : Store) (j : ℕ)
    → leaf_hashes s j ≡ pad (map (λ leaf. leaf_hash leaf) s) (empty_subtree_hash 0) j
leaf_hashes-pad [] j = refl
leaf_hashes-pad (leaf ∷ s) zero = refl
leaf_hashes-pad (leaf ∷ s) (suc j) = leaf_hashes-pad s j

pub tree_root-dense : (s : Store) → dense_root s ≡ some (tree_root s)
unfolding tree_root
tree_root-dense s =
    fold_leaves_lem (λ l r. blake2s_compress l r) (empty_subtree_hash 0) 64
      (empty_loop (λ l r. blake2s_compress l r) 64 (empty_subtree_hash 0))
      (map (λ leaf. leaf_hash leaf) s)
      (empty_loop-IsTable (λ l r. blake2s_compress l r) 64 (empty_subtree_hash 0))
    ∙ ap some (sym (ap (λ f. levels 64 f 0) (fun_ext (leaf_hashes-pad s)) ∙ levels-full 64 _))

abbrev pub guards : Store
guards =
    record { key = 0; value = 0; next_index = 1 }
    ∷ record {
      key = 115792089237316195423570985008687907853269984665640564039457584007913129639935;
      value = 5;
      next_index = 1;
    }
    ∷ []

pub some_inj {ℓ} : {A : Type ℓ} {a b : A} → some a ≡ some b → a ≡ b
some_inj {a} e = ap (λ o. elim o [ some x ↦ x | none ↦ a ]) e

guards_root : dense_root guards ≡ some 804
unfolding fold_leaves level_loop pair_loop empty_loop empty_subtree_hash hash_leaf toy_blake2s
    toy_hash be_bytes le_bytes
guards_root = refl

pub tree_root-guards : tree_root guards ≡ 804
tree_root-guards = some_inj (sym (tree_root-dense guards) ∙ guards_root)

pub guards-StoreFits : StoreFits guards
guards-StoreFits zero leaf h =
    subst IsTreeLeaf (some_inj h)
      (record { key_fits = omega arith; value_fits = omega arith; next_fits = omega arith })
guards-StoreFits (suc zero) leaf h =
    subst IsTreeLeaf (some_inj h)
      (record { key_fits = omega arith; value_fits = omega arith; next_fits = omega arith })
guards-StoreFits (suc (suc i)) leaf h = absurd (cc)

pub guards-IsLinked : IsLinked guards
guards-IsLinked = record {
  lower_guard = λ leaf h. ground arith;
  closed = closed;
  distinct = distinct;
  gapless = gapless;
}
  where
    closed : (i : ℕ) (leaf : TreeLeaf) → HasLeaf guards i leaf → leaf.next_index < length guards
    closed zero leaf h = ground arith
    closed (suc zero) leaf h = ground arith
    closed (suc (suc i)) leaf h = absurd (cc)

    distinct :
        (i j : ℕ) (a b : TreeLeaf) → HasLeaf guards i a → HasLeaf guards j b → a.key ≡ b.key → i ≡ j
    distinct zero zero a b ha hb e = refl
    distinct zero (suc zero) a b ha hb e = absurd (ground arith)
    distinct zero (suc (suc j)) a b ha hb e = absurd (cc)
    distinct (suc zero) zero a b ha hb e = absurd (ground arith)
    distinct (suc zero) (suc zero) a b ha hb e = refl
    distinct (suc zero) (suc (suc j)) a b ha hb e = absurd (cc)
    distinct (suc (suc i)) j a b ha hb e = absurd (cc)

    gapless :
        (i : ℕ) (a succ : TreeLeaf)
        → HasLeaf guards i a
        → HasLeaf guards a.next_index succ
        → (j : ℕ) (b : TreeLeaf) → HasLeaf guards j b
        → (b.key ≤ a.key) ⊎ (succ.key ≤ b.key)
    gapless i a succ ha hs zero b hb = inl (ground arith)
    gapless zero a succ ha hs (suc zero) b hb =
        let en : 1 ≡ a.next_index = ap (λ l. l.next_index) (some_inj ha) in
        let hs' : HasLeaf guards 1 succ = rw (← en) at hs in
        inr (rw (some_inj (sym hs' ∙ hb)) (omega arith))
    gapless (suc zero) a succ ha hs (suc zero) b hb = inl (ground arith)
    gapless (suc (suc i)) a succ ha hs (suc zero) b hb = absurd (cc)
    gapless i a succ ha hs (suc (suc j)) b hb = absurd (cc)
