-- ===== src/BlockRoots.antt =====
-- The transactions root and the receipts root of a block: lib/src/block_roots.rs, less the receipt
-- leaf, which the `alloy` crates encode.
use zksync_os_zisk.Prelude.{
  ℕ, ◌-◌, ◌^◌, ◌≤◌, ◌<◌, ◌≡◌, refl, sym, ◌∙◌, inl, inr, ◌≢◌, Bool-cases, ltb, ltb→le, ltb→lt, true,
  false, ◌||◌, Option, none, some, List, [], ◌∷◌, leb, if◌then◌else◌, length, All, arith,
}
use zksync_os_zisk.Merkle.Hash.{
  B256, IsB256, Blake2s, blake2s_compress, compress-IsB256, compress_inj, node_preimage, Only,
  Collision, UnlessCollision, and_then,
}
use zksync_os_zisk.FixedHeight.{fold_leaves, empty_loop, full_levels}
use zksync_os_zisk.FixedHeight.Root.{pad, IsTable, empty_loop-IsTable, fold_leaves_lem}
use zksync_os_zisk.FixedHeight.Binding.{
  full_levels_inj, LevelsHashed, LevelsHashed-LevelsKnown, full_levels-IsB256, pad_inj, pad-IsB256,
}

abbrev pub block_tx_tree_depth : ℕ
block_tx_tree_depth = 32

some_inj : {a b : B256} → some a ≡ some b → a ≡ b
some_inj e = ground arith

no_root : {a : B256} → some a ≢ none
no_root e = cc

module _ ⦃H : Blake2s⦄ where
  unfoldable pub empty_subtree_hashes : ℕ → List B256
  empty_subtree_hashes height = empty_loop (λ l r. blake2s_compress l r) height 0

  -- `none` where an assertion fails.
  unfoldable pub merkle_root : List B256 → List B256 → Option B256
  merkle_root leaves [] = none
  merkle_root leaves (empty ∷ table) =
      let height = length (empty ∷ table) - 1 in
      if leb 64 height || leb (length leaves) (2 ^ height)
      then fold_leaves (λ l r. blake2s_compress l r) leaves (empty ∷ table)
      else none

  unfoldable pub block_tx_tree_root : List B256 → Option B256
  unfolding merkle_root empty_subtree_hashes
  block_tx_tree_root leaves = merkle_root leaves (empty_subtree_hashes block_tx_tree_depth)

  -- The root of the full tree of height 32 over the leaves and zeros.
  abbrev pub full_block_root : List B256 → B256
  full_block_root leaves = full_levels (λ l r. blake2s_compress l r) 32 (pad leaves 0) 0

  -- The byte strings that this tree hashes.
  abbrev pub BlockTreeHashed : List B256 → List ℕ → Type 0
  BlockTreeHashed leaves m =
      LevelsHashed (λ l r. blake2s_compress l r) node_preimage 32 (pad leaves 0) m

  abbrev compress : B256 → B256 → B256
  compress l r = blake2s_compress l r

  merkle_root-within :
      (height : ℕ) (table leaves : List B256)
      → IsTable compress 0 height table
      → length leaves ≤ 2 ^ height
      → merkle_root leaves table ≡ some (full_levels compress height (pad leaves 0) 0)
  unfolding merkle_root
  merkle_root-within height [] leaves t le = absurd (omega (arith, t.entries))
  merkle_root-within height (empty ∷ table) leaves t le =
      let eh : length (empty ∷ table) - 1 ≡ height = omega (arith, t.entries) in
      let fits : (leb 64 height || leb (length leaves) (2 ^ height)) ≡ true = ground arith in
      rw (eh, fits) (fold_leaves_lem compress 0 height (empty ∷ table) leaves t)

  merkle_root-beyond :
      (height : ℕ) (table leaves : List B256)
      → IsTable compress 0 height table
      → height < 64
      → 2 ^ height < length leaves
      → merkle_root leaves table ≡ none
  unfolding merkle_root
  merkle_root-beyond height [] leaves t h lt = absurd (omega (arith, t.entries))
  merkle_root-beyond height (empty ∷ table) leaves t h lt =
      let eh : length (empty ∷ table) - 1 ≡ height = omega (arith, t.entries) in
      let refused : (leb 64 height || leb (length leaves) (2 ^ height)) ≡ false = ground arith in
      rw (eh, refused) refl

  -- At most 2 ^ 32 leaves have the root of the full tree of height 32 over them, padded with zeros;
  -- more leaves are refused.
  pub block_tx_tree_root_lem :
      (leaves : List B256)
      → (length leaves ≤ 2 ^ 32 → block_tx_tree_root leaves ≡ some (full_block_root leaves))
        × (2 ^ 32 < length leaves → block_tx_tree_root leaves ≡ none)
  unfolding block_tx_tree_root empty_subtree_hashes
  block_tx_tree_root_lem leaves = (
    λ le.
        merkle_root-within 32 (empty_loop compress 32 0) leaves (empty_loop-IsTable compress 32 0)
          le,
    λ lt.
        merkle_root-beyond 32 (empty_loop compress 32 0) leaves (empty_loop-IsTable compress 32 0)
          (omega arith) lt,
  )

  -- Leaves that have a root fit the tree, and the root is a word of 32 bytes.
  pub block_tx_tree_root-IsB256 :
      (leaves : List B256) (root : B256)
      → All IsB256 leaves
      → block_tx_tree_root leaves ≡ some root
      → (length leaves ≤ 2 ^ 32) × IsB256 root
  block_tx_tree_root-IsB256 leaves root h e = elim (Bool-cases (ltb (2 ^ 32) (length leaves))) [
    | inr within ↦
        let room : length leaves ≤ 2 ^ 32 = ltb→le (2 ^ 32) (length leaves) within in
        let same : full_block_root leaves ≡ root =
          some_inj (sym ((block_tx_tree_root_lem leaves).0 room) ∙ e) in
        (
          room,
          rw (sym same) (
              full_levels-IsB256 compress (Collision (Only [])) (λ c d. Only [] (node_preimage c d))
                compress-IsB256 compress_inj 32 (pad leaves 0) (pad-IsB256 0 leaves (omega arith) h)
                0),
        )
    | inl beyond ↦ absurd (
        no_root
          (sym e ∙ (block_tx_tree_root_lem leaves).1 (ltb→lt (2 ^ 32) (length leaves) beyond)))
  ]

  -- Lists of at most 2 ^ 32 hashes with one length and one root are equal, unless a second
  -- preimage of a byte string that the tree of the second list hashes is at hand.
  pub block_tx_tree_root_inj :
      (xs ys : List B256) (root : B256)
      → All IsB256 xs
      → All IsB256 ys
      → length xs ≡ length ys
      → length xs ≤ 2 ^ 32
      → block_tx_tree_root xs ≡ some root
      → block_tx_tree_root ys ≡ some root
      → UnlessCollision (BlockTreeHashed ys) (xs ≡ ys)
  block_tx_tree_root_inj xs ys root hx hy el room ex ey =
      let (within_x, beyond_x) = block_tx_tree_root_lem xs in
      let (within_y, beyond_y) = block_tx_tree_root_lem ys in
      let same : full_block_root xs ≡ full_block_root ys =
        some_inj (sym (within_x room) ∙ ex ∙ sym ey ∙ within_y (omega arith)) in
      and_then
        (full_levels_inj compress (Collision (BlockTreeHashed ys))
          (λ c d. BlockTreeHashed ys (node_preimage c d)) compress-IsB256 compress_inj 32 (pad xs 0)
          (pad ys 0)
          (LevelsHashed-LevelsKnown compress node_preimage (BlockTreeHashed ys) 32 (pad ys 0)
            (λ m x. x))
          (pad-IsB256 0 xs (omega arith) hx) (pad-IsB256 0 ys (omega arith) hy) same)
        λ leaves. inl (pad_inj 0 xs ys el (λ j lt. leaves j (omega arith)))
