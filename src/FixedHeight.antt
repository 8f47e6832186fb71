-- ===== src/FixedHeight.antt =====
-- The fixed-height binary Merkle root that lib/src/block_roots.rs (`merkle_root`) and
-- lib/src/commitment.rs (`fixed_height_keccak_root`) fold in place, over a node hash. An index out of
-- range, or a failed assertion, is `none`.
pub mod Root
pub mod Binding
use zksync_os_zisk.Prelude.{
  ℕ, zero, suc, ◌+◌, ◌-◌, ◌*◌, ◌/◌, ◌%◌, ◌^◌, Bool, true, false, ◌||◌, Option, none, some, List, [],
  ◌∷◌, ltb, leb, if◌then◌else◌, length, get_elem?, set,
}
use zksync_os_zisk.Merkle.Hash.{B256}

infixl 5 ◌>>=◌
abbrev pub ◌>>=◌ : {A B : Type 0} → Option A → (A → Option B) → Option B
some a >>= f = f a
none >>= f = none

module _ (node : B256 → B256 → B256) where
  -- `for i in 0..pairs`, from `i` with the rounds that are left. `empty` is the hash of the empty
  -- subtree of the level.
  unfoldable pub pair_loop : ℕ → ℕ → ℕ → B256 → List B256 → Option (List B256)
  pair_loop zero i count empty nodes = some nodes
  pair_loop (suc rounds) i count empty nodes = do
    left ← get_elem? nodes (i * 2)
    right ← (if ltb (i * 2 + 1) count then get_elem? nodes (i * 2 + 1) else some empty)
    pair_loop rounds (i + 1) count empty (set nodes i (node left right))

  -- `for level in 0..height`, from `level` with the rounds that are left.
  unfoldable pub level_loop : ℕ → ℕ → ℕ → List B256 → List B256 → Option B256
  unfolding pair_loop
  level_loop zero level count table nodes = get_elem? nodes 0
  level_loop (suc rounds) level count table nodes = do
    let pairs = (count + 1) / 2
    empty ← get_elem? table level
    nodes' ← pair_loop pairs 0 count empty nodes
    level_loop rounds (level + 1) pairs table nodes'

  -- What both functions do after their assertions.
  unfoldable pub fold_leaves : List B256 → List B256 → Option B256
  unfolding level_loop
  fold_leaves [] table = get_elem? table (length table - 1)
  fold_leaves (leaf ∷ leaves) table =
      level_loop (length table - 1) 0 (length (leaf ∷ leaves)) table (leaf ∷ leaves)

  -- `hashes.push(compress(prev, prev))`, from the last entry with the rounds that are left.
  unfoldable pub empty_loop : ℕ → B256 → List B256
  empty_loop zero prev = prev ∷ []
  empty_loop (suc rounds) prev = prev ∷ empty_loop rounds (node prev prev)

  -- The root of the padded tree, level by level.
  unfoldable pub full_levels : ℕ → (ℕ → B256) → ℕ → B256
  full_levels zero nodes = nodes
  full_levels (suc n) nodes = full_levels n (λ i. node (nodes (2 * i)) (nodes (2 * i + 1)))
