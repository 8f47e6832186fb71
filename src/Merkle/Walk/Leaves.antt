-- ===== src/Merkle/Walk/Leaves.antt =====
-- The depth-0 nodes of the walk.
use zksync_os_zisk.Prelude.{
  ℕ, zero, suc, ◌<◌, ◌≡◌, refl, ap, sym, ◌∙◌, inl, inr, none, some, List, [], ◌∷◌, ltb, Bool-cases,
  Option-cases, get_elem?, ok, Result-cases, arith,
}
use zksync_os_zisk.Merkle.Hash.{B256, IsB256, Blake2s, hash_leaf-IsB256, empty_subtree_hash}
use zksync_os_zisk.Merkle.Tree.{TreeLeaf, leaf_hash}
use zksync_os_zisk.Merkle.Proof.Path.{empty-IsB256}
use zksync_os_zisk.Merkle.Update.Order.{Above, indices}
use zksync_os_zisk.Merkle.Walk.{Node, find_leaf, leaf_nodes}
use zksync_os_zisk.Merkle.Walk.Shape.{OldFits}
use zksync_os_zisk.Merkle.Walk.Sound.{OldOf, NewOf}

-- With ascending indices, the last leaf of an index is the only one.
find_leaf-eq-none :
    {lo : ℕ} (xs : List (ℕ × TreeLeaf)) (i : ℕ)
    → Above lo (indices xs)
    → i < lo
    → find_leaf i xs ≡ none
unfolding find_leaf
find_leaf-eq-none [] i a h = refl
find_leaf-eq-none ((j, leaf) ∷ xs) i (p, a) h =
    rw (find_leaf-eq-none xs i a (omega arith)) (ground arith)

pub find_leaf-get :
    (lo : ℕ) (xs : List (ℕ × TreeLeaf)) (p i : ℕ) (leaf : TreeLeaf)
    → Above lo (indices xs)
    → get_elem? xs p ≡ some (i, leaf)
    → find_leaf i xs ≡ some leaf
unfolding find_leaf
find_leaf-get lo [] p i leaf a h = absurd (cc)
find_leaf-get lo ((j, x) ∷ xs) zero i leaf (q, a) h =
    rw (find_leaf-eq-none xs i a (ground arith)) (ground arith)
find_leaf-get lo ((j, x) ∷ xs) (suc p) i leaf (q, a) h = rw (find_leaf-get (suc j) xs p i leaf a h)

module _ ⦃H : Blake2s⦄ (count : ℕ) (sorted : List (ℕ × TreeLeaf)) where
  -- A run on one leaf and on the rest.
  pub record LeafRun (idx : ℕ) (leaf : TreeLeaf) (rest : List (ℕ × TreeLeaf)) (level : List Node)
      : Type 0 where
    pub old : B256
    pub nodes : List Node
    pub below : idx < count → (o : TreeLeaf) × (find_leaf idx sorted ≡ some o) × (old ≡ leaf_hash o)
    pub old_fits : IsB256 old
    pub later : leaf_nodes count sorted rest ≡ ok nodes
    pub result :
        ◌≡◌ {A = List Node} ((idx, record { old = old; new = leaf_hash leaf }) ∷ nodes) level

  leaf_run :
      (idx : ℕ) (leaf : TreeLeaf) (rest : List (ℕ × TreeLeaf)) (level : List Node)
      → leaf_nodes count sorted ((idx, leaf) ∷ rest) ≡ ok level
      → LeafRun idx leaf rest level
  unfolding leaf_nodes
  leaf_run idx leaf rest level e = elim (Bool-cases (ltb idx count)) [
    | inl pre ↦ elim (Option-cases (find_leaf idx sorted)) [
      | inl missing ↦ absurd (ground arith)
      | inr (o, found) ↦ elim (Result-cases (leaf_nodes count sorted rest)) [
        | inr (x, r) ↦ absurd (ground arith)
        | inl (nodes, r) ↦ record {
          old = leaf_hash o;
          nodes = nodes;
          below = λ h. (o, found, refl);
          old_fits = hash_leaf-IsB256 o.key o.value o.next_index;
          later = r;
          result = ground arith;
        }
      ]
    ]
    | inr post ↦ elim (Result-cases (leaf_nodes count sorted rest)) [
      | inr (x, r) ↦ absurd (ground arith)
      | inl (nodes, r) ↦ record {
        old = empty_subtree_hash 0;
        nodes = nodes;
        below = λ h. absurd (ground arith);
        old_fits = empty-IsB256 0;
        later = r;
        result = ground arith;
      }
    ]
  ]

  pub leaf_nodes-indices :
      (news : List (ℕ × TreeLeaf)) (level : List Node)
      → leaf_nodes count sorted news ≡ ok level
      → indices level ≡ indices news
  leaf_nodes-indices [] level e =
      let el : [] ≡ level = unfold leaf_nodes in ground arith in rw (← el)
  leaf_nodes-indices ((i, leaf) ∷ news) level e =
      let r = leaf_run i leaf news level e in
      rw (← r.result) (ap (λ l. i ∷ l) (leaf_nodes-indices news r.nodes r.later))

  pub leaf_nodes-OldFits :
      (news : List (ℕ × TreeLeaf)) (level : List Node)
      → leaf_nodes count sorted news ≡ ok level
      → OldFits level
  leaf_nodes-OldFits [] level e =
      let el : [] ≡ level = unfold leaf_nodes in ground arith in rw (← el) tt
  leaf_nodes-OldFits ((i, leaf) ∷ news) level e =
      let r = leaf_run i leaf news level e in
      rw (← r.result) (r.old_fits, leaf_nodes-OldFits news r.nodes r.later)

  pub leaf_nodes-NewOf :
      (g : ℕ → B256) (news : List (ℕ × TreeLeaf)) (level : List Node)
      → leaf_nodes count sorted news ≡ ok level
      → ((p i : ℕ) (leaf : TreeLeaf) → get_elem? news p ≡ some (i, leaf) → leaf_hash leaf ≡ g i)
      → NewOf g level
  leaf_nodes-NewOf g [] level e h =
      let el : [] ≡ level = unfold leaf_nodes in ground arith in rw (← el) tt
  leaf_nodes-NewOf g ((i, leaf) ∷ news) level e h =
      let r = leaf_run i leaf news level e in
      rw (← r.result)
        (h 0 i leaf refl, leaf_nodes-NewOf g news r.nodes r.later (λ p j x q. h (suc p) j x q))

  -- At an old position the old hash is that of the witness leaf.
  pub leaf_nodes-OldOf :
      (f : ℕ → B256) (news : List (ℕ × TreeLeaf)) (level : List Node) (p i : ℕ)
      → leaf_nodes count sorted news ≡ ok level
      → OldOf f level
      → get_elem? (indices news) p ≡ some i
      → i < count
      → (o : TreeLeaf) × (find_leaf i sorted ≡ some o) × (leaf_hash o ≡ f i)
  leaf_nodes-OldOf f [] level p i e old h lt = absurd (cc)
  leaf_nodes-OldOf f ((j, leaf) ∷ news) level zero i e old h lt =
      let r = leaf_run j leaf news level e in
      let ej : j ≡ i = ground arith in
      let (o, found, eo) = r.below (rw ej lt) in
      (o, rw (← ej) found, sym eo ∙ (rw (← r.result) at old).0 ∙ ap f ej)
  leaf_nodes-OldOf f ((j, leaf) ∷ news) level (suc p) i e old h lt =
      let r = leaf_run j leaf news level e in
      leaf_nodes-OldOf f news r.nodes p i r.later (rw (← r.result) at old).1 h lt
