-- ===== src/FixedHeight/Root.antt =====
-- The in-place fold gives the root of the full tree over the leaves padded with the empty leaf.
use zksync_os_zisk.Prelude.{
  ℕ, zero, suc, ◌+◌, ◌-◌, ◌*◌, ◌/◌, ◌≤◌, ◌<◌, ◌≡◌, refl, ap, sym, ◌∙◌, inl, inr, some, List, [],
  ◌∷◌, ltb, ltb→lt, ltb→le, Bool-cases, if◌then◌else◌, length, get_elem?, get_or, set, length-set,
  get_elem?-set_self, get_elem?-set_ne, arith,
}
use mathlib.Core.Path.{ap₂}
use zksync_os_zisk.Merkle.Hash.{B256}
use zksync_os_zisk.FixedHeight.{pair_loop, level_loop, fold_leaves, empty_loop, full_levels}

-- The leaves, padded.
abbrev pub pad : List B256 → B256 → ℕ → B256
pad leaves empty j = get_or leaves j empty

pad_shown :
    (leaf : B256) (xs : List B256) (j : ℕ) → j < length xs → get_elem? xs j ≡ some (pad xs leaf j)
pad_shown leaf [] j lt = elim lt [ ]
pad_shown leaf (x ∷ xs) zero lt = refl
pad_shown leaf (x ∷ xs) (suc j) lt = pad_shown leaf xs j (omega arith)

pub pad_beyond : (leaf : B256) (xs : List B256) (j : ℕ) → length xs ≤ j → pad xs leaf j ≡ leaf
pad_beyond leaf [] j le = refl
pad_beyond leaf (x ∷ xs) zero le = absurd (omega arith)
pad_beyond leaf (x ∷ xs) (suc j) le = pad_beyond leaf xs j (omega arith)

module _ (node : B256 → B256 → B256) where
  abbrev above : (ℕ → B256) → ℕ → B256
  above f i = node (f (2 * i)) (f (2 * i + 1))

  -- The first `count` nodes are those of the level `f`.
  abbrev Shows : (ℕ → B256) → ℕ → List B256 → Type 0
  Shows f count nodes = (j : ℕ) → j < count → get_elem? nodes j ≡ some (f j)

  abbrev PadsWith : (ℕ → B256) → ℕ → B256 → Type 0
  PadsWith f count empty = (j : ℕ) → count ≤ j → f j ≡ empty

  module _ (f : ℕ → B256) (count : ℕ) (empty : B256) (pads : PadsWith f count empty) where
    right_of :
        (i : ℕ) (nodes : List B256)
        → ((j : ℕ) → i * 2 ≤ j → j < count → get_elem? nodes j ≡ some (f j))
        → (if ltb (i * 2 + 1) count then get_elem? nodes (i * 2 + 1) else some empty)
          ≡ some (f (i * 2 + 1))
    right_of i nodes unread = elim (Bool-cases (ltb (i * 2 + 1) count)) [
      | inl there ↦ rw there (unread (i * 2 + 1) (omega arith) (ltb→lt _ _ there))
      | inr beyond ↦ rw beyond (ap some (sym (pads (i * 2 + 1) (ltb→le _ _ beyond))))
    ]

    pair_loop_lem :
        (rounds i : ℕ) (nodes : List B256)
        → count ≤ length nodes
        → Shows (above f) i nodes
        → ((j : ℕ) → i * 2 ≤ j → j < count → get_elem? nodes j ≡ some (f j))
        → i + rounds ≡ (count + 1) / 2
        → (nodes' : List B256) × (pair_loop node rounds i count empty nodes ≡ some nodes')
          × (length nodes' ≡ length nodes)
          × Shows (above f) ((count + 1) / 2) nodes'
    unfolding pair_loop
    pair_loop_lem zero i nodes room done unread sum =
        (nodes, refl, refl, λ j lt. done j (omega arith))
    pair_loop_lem (suc rounds) i nodes room done unread sum =
        let left : get_elem? nodes (i * 2) ≡ some (f (i * 2)) =
          unread (i * 2) (omega arith) (omega arith) in
        let parent = node (f (i * 2)) (f (i * 2 + 1)) in
        let nodes₁ = set nodes i parent in
        let done₁ : Shows (above f) (i + 1) nodes₁ = λ j lt. elim (Bool-cases (ltb j i)) [
          | inl old ↦
              get_elem?-set_ne nodes i j parent (omega (arith, ltb→lt _ _ old))
              ∙ done j (ltb→lt _ _ old)
          | inr new ↦
              let ej : j ≡ i = omega (arith, ltb→le _ _ new) in
              let two : i * 2 ≡ 2 * i = omega arith in
              rw ej (
                get_elem?-set_self nodes i parent (omega arith)
                ∙ ap (λ t. some (node (f t) (f (t + 1)))) two)
        ] in
        let (nodes', e, el, shows) =
          pair_loop_lem rounds (i + 1) nodes₁ (omega (arith, length-set nodes i parent)) done₁
            (λ j lo lt. get_elem?-set_ne nodes i j parent (omega arith) ∙ unread j (omega arith) lt)
            (omega arith) in
        (nodes', rw (left, right_of i nodes unread) e, el ∙ length-set nodes i parent, shows)

  -- The root of the empty subtree of a height.
  unfoldable pub empty_root : B256 → ℕ → B256
  empty_root leaf zero = leaf
  empty_root leaf (suc d) = let prev = empty_root leaf d in node prev prev

  -- A table of the empty roots up to a height.
  pub record IsTable (leaf : B256) (height : ℕ) (table : List B256) : Type 0 where
    pub entries : length table ≡ height + 1
    pub entry : (d : ℕ) → d ≤ height → get_elem? table d ≡ some (empty_root leaf d)

  level_loop_lem :
      (leaf : B256) (height : ℕ) (table : List B256)
      → IsTable leaf height table
      → (rounds level count : ℕ) (nodes : List B256) (f : ℕ → B256) → level + rounds ≡ height
      → 0 < count
      → count ≤ length nodes
      → Shows f count nodes
      → PadsWith f count (empty_root leaf level)
      → level_loop node rounds level count table nodes ≡ some (full_levels node rounds f 0)
  unfolding level_loop full_levels
  level_loop_lem leaf height table t zero level count nodes f sum pos room shows pads = shows 0 pos
  level_loop_lem leaf height table t (suc rounds) level count nodes f sum pos room shows pads =
      let (nodes', e, el, shows') =
        pair_loop_lem f count (empty_root leaf level) pads ((count + 1) / 2) 0 nodes room
          (λ j lt. absurd (omega arith)) (λ j lo lt. shows j lt) (omega arith) in
      rw (t.entry level (omega arith), e)
        (level_loop_lem leaf height table t rounds (level + 1) ((count + 1) / 2) nodes' (above f)
          (omega arith) (omega arith) (omega (arith, el)) shows' pads')
    where
      pads' : PadsWith (above f) ((count + 1) / 2) (empty_root leaf (level + 1))
      pads' j le =
          let e : level + 1 ≡ suc level = omega arith in
          rw e (
            unfold empty_root in
            ap₂ node (pads (2 * j) (omega arith)) (pads (2 * j + 1) (omega arith)))

  empty_root-suc : (leaf : B256) (d : ℕ) → empty_root (node leaf leaf) d ≡ empty_root leaf (suc d)
  unfolding empty_root
  empty_root-suc leaf zero = refl
  empty_root-suc leaf (suc d) = ap (λ h. node h h) (empty_root-suc leaf d)

  full_levels-empty :
      (n : ℕ) (leaf : B256) (j : ℕ) → full_levels node n (λ i. leaf) j ≡ empty_root leaf n
  unfolding full_levels
  full_levels-empty zero leaf j = unfold empty_root in refl
  full_levels-empty (suc n) leaf j = full_levels-empty n (node leaf leaf) j ∙ empty_root-suc leaf n

  pub empty_loop-IsTable :
      (height : ℕ) (leaf : B256) → IsTable leaf height (empty_loop node height leaf)
  unfolding empty_loop
  empty_loop-IsTable zero leaf = record {
    entries = refl;
    entry = λ d le. let z : d ≡ 0 = omega arith in rw z (unfold empty_root in refl);
  }
  empty_loop-IsTable (suc height) leaf =
      let t = empty_loop-IsTable height (node leaf leaf) in
      record { entries = omega (arith, t.entries); entry = entry t }
    where
      entry :
          IsTable (node leaf leaf) height (empty_loop node height (node leaf leaf))
          → (d : ℕ) → d ≤ suc height
          → get_elem? (leaf ∷ empty_loop node height (node leaf leaf)) d ≡ some (empty_root leaf d)
      entry t zero le = unfold empty_root in refl
      entry t (suc d) le = t.entry d (omega arith) ∙ ap some (empty_root-suc leaf d)

  pub fold_leaves_lem :
      (leaf : B256) (height : ℕ) (table leaves : List B256)
      → IsTable leaf height table
      → fold_leaves node leaves table ≡ some (full_levels node height (pad leaves leaf) 0)
  unfolding fold_leaves
  fold_leaves_lem leaf height table [] t =
      let last : length table - 1 ≡ height = omega (arith, t.entries) in
      rw last (t.entry height (omega arith) ∙ ap some (sym (full_levels-empty height leaf 0)))
  fold_leaves_lem leaf height table (x ∷ leaves) t =
      let last : length table - 1 ≡ height = omega (arith, t.entries) in
      rw last (
        level_loop_lem leaf height table t height 0 (length (x ∷ leaves)) (x ∷ leaves)
          (pad (x ∷ leaves) leaf) (omega arith) (omega arith) (omega arith)
          (pad_shown leaf (x ∷ leaves)) (unfold empty_root in pad_beyond leaf (x ∷ leaves)))
