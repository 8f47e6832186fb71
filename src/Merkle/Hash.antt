-- ===== src/Merkle/Hash.antt =====
-- The Blake2s helpers of lib/src/merkle.rs, over the interface that lib/src/crypto/blake2s.rs (or the
-- `blake2` crate, on the host) fills. A 32-byte value is a number below 2 ^ 256, read big-endian.
use zksync_os_zisk.Prelude.{
  ℕ, zero, suc, ◌^◌, ◌<◌, ◌≡◌, ◌≢◌, ◌∙◌, sym, ◌&&◌, List, ◌++◌, ◌⊎◌, inl, inr, ◌==◌, ==→eq, ==→ne,
  Bool-cases, arith,
}
use zksync_os_zisk.Prelude.Bytes.{be_bytes, le_bytes, be_bytes_inj, be_bytes_eq, le_bytes_eq}

abbrev pub B256 : Type 0
B256 = ℕ

abbrev pub IsB256 : ℕ → Type 0
IsB256 n = n < 2 ^ 256

abbrev pub IsU64 : ℕ → Type 0
IsU64 n = n < 2 ^ 64

-- The one byte string.
abbrev pub Only : List ℕ → List ℕ → Type 0
Only n m = m ≡ n

abbrev pub tree_depth : ℕ
tree_depth = 64

-- The preimage of a Merkle node: both children, 32 bytes each.
abbrev pub node_preimage : B256 → B256 → List ℕ
node_preimage lhs rhs = be_bytes 32 lhs ++ be_bytes 32 rhs

-- A Blake2s-256 implementation: the one-shot hash, the Merkle node hash, and what is relied on.
pub record Blake2s : Type 0 where
  pub blake2s : List ℕ → B256
  pub node_hash : B256 → B256 → B256
  pub blake2s-IsB256 : (m : List ℕ) → IsB256 (blake2s m)
  pub node_hash_lem : (l r : B256) → node_hash l r ≡ blake2s (node_preimage l r)

module _ ⦃H : Blake2s⦄ where
  abbrev pub blake2s_compress : B256 → B256 → B256
  blake2s_compress lhs rhs = H.node_hash lhs rhs

  abbrev pub leaf_preimage : B256 → B256 → ℕ → List ℕ
  leaf_preimage key value next_index =
      be_bytes 32 key ++ (be_bytes 32 value ++ le_bytes 8 next_index)

  unfoldable pub hash_leaf : B256 → B256 → ℕ → B256
  hash_leaf key value next_index = H.blake2s (leaf_preimage key value next_index)

  -- Entry `depth` of the table of empty subtree hashes.
  unfoldable pub empty_subtree_hash : ℕ → B256
  empty_subtree_hash zero = hash_leaf 0 0 0
  empty_subtree_hash (suc depth) = let prev = empty_subtree_hash depth in blake2s_compress prev prev

  -- A second preimage of one of the byte strings `Q`: two that differ and have one hash, of which one
  -- is in `Q`.
  pub record Collision (Q : List ℕ → Type 0) : Type 0 where
    pub first : List ℕ
    pub second : List ℕ
    pub known : Q second
    pub differ : first ≢ second
    pub agree : H.blake2s first ≡ H.blake2s second

  -- `P` holds, or a second preimage of one of the byte strings `Q` is at hand.
  abbrev pub UnlessCollision {ℓ} : (List ℕ → Type 0) → Type ℓ → Type ℓ
  UnlessCollision Q P = P ⊎ Collision Q

  abbrev pub and_then {ℓ κ} :
      {Q : List ℕ → Type 0} {P : Type ℓ} {R : Type κ}
      → UnlessCollision Q P
      → (P → UnlessCollision Q R)
      → UnlessCollision Q R
  and_then (inl p) f = f p
  and_then (inr c) f = inr c

  -- A second preimage of one of fewer byte strings.
  pub widen {ℓ} :
      {Q R : List ℕ → Type 0} {P : Type ℓ}
      → ((m : List ℕ) → Q m → R m)
      → UnlessCollision Q P
      → UnlessCollision R P
  widen sub (inl p) = inl p
  widen sub (inr c) = inr (record {
    first = c.first;
    second = c.second;
    known = sub c.second c.known;
    differ = c.differ;
    agree = c.agree;
  })

  pub compress-IsB256 : (l r : B256) → IsB256 (blake2s_compress l r)
  compress-IsB256 l r = rw (H.node_hash_lem l r) (H.blake2s-IsB256 (node_preimage l r))

  pub hash_leaf-IsB256 : (k v : B256) (n : ℕ) → IsB256 (hash_leaf k v n)
  unfolding hash_leaf
  hash_leaf-IsB256 k v n = H.blake2s-IsB256 (leaf_preimage k v n)

  node_preimage_inj :
      (a b c d : B256)
      → IsB256 a
      → IsB256 b
      → IsB256 c
      → IsB256 d
      → node_preimage a b ≡ node_preimage c d
      → (a ≡ c) × (b ≡ d)
  node_preimage_inj a b c d ha hb hc hd p =
      let (ac, tails) = be_bytes_inj 32 a c (be_bytes 32 b) (be_bytes 32 d) ha hc p in
      (ac, be_bytes_eq 32 b d hb hd tails)

  leaf_preimage_inj :
      (k v n k' v' n' : ℕ)
      → IsB256 k
      → IsB256 v
      → IsU64 n
      → IsB256 k'
      → IsB256 v'
      → IsU64 n'
      → leaf_preimage k v n ≡ leaf_preimage k' v' n'
      → (k ≡ k') × (v ≡ v') × (n ≡ n')
  leaf_preimage_inj k v n k' v' n' hk hv hn hk' hv' hn' p =
      let (ek, tails) =
        be_bytes_inj 32 k k' (be_bytes 32 v ++ le_bytes 8 n) (be_bytes 32 v' ++ le_bytes 8 n') hk
          hk' p in
      let (ev, ends) = be_bytes_inj 32 v v' (le_bytes 8 n) (le_bytes 8 n') hv hv' tails in
      (ek, ev, le_bytes_eq 8 n n' hn hn' ends)

  -- Equal node hashes have equal children.
  pub compress_inj :
      {Q : List ℕ → Type 0} (a b c d : B256)
      → Q (node_preimage c d)
      → IsB256 a
      → IsB256 b
      → IsB256 c
      → IsB256 d
      → blake2s_compress a b ≡ blake2s_compress c d
      → UnlessCollision Q ((a ≡ c) × (b ≡ d))
  compress_inj {Q} a b c d known ha hb hc hd e = elim (Bool-cases (a == c)) [
    | inr ne ↦ inr (collide (λ p. ==→ne a c ne p.0))
    | inl ac ↦ elim (Bool-cases (b == d)) [
      | inr ne ↦ inr (collide (λ p. ==→ne b d ne p.1))
      | inl bd ↦ inl (==→eq a c ac, ==→eq b d bd)
    ]
  ]
    where
      collide : ¬ ((a ≡ c) × (b ≡ d)) → Collision Q
      collide ne = record {
        first = node_preimage a b;
        second = node_preimage c d;
        known = known;
        differ = λ p. ne (node_preimage_inj a b c d ha hb hc hd p);
        agree = sym (H.node_hash_lem a b) ∙ e ∙ H.node_hash_lem c d;
      }

  -- Equal leaf hashes have equal contents.
  pub hash_leaf_inj :
      {Q : List ℕ → Type 0} (k v n k' v' n' : ℕ)
      → Q (leaf_preimage k' v' n')
      → IsB256 k
      → IsB256 v
      → IsU64 n
      → IsB256 k'
      → IsB256 v'
      → IsU64 n'
      → hash_leaf k v n ≡ hash_leaf k' v' n'
      → UnlessCollision Q ((k ≡ k') × (v ≡ v') × (n ≡ n'))
  unfolding hash_leaf
  hash_leaf_inj k v n k' v' n' known hk hv hn hk' hv' hn' e =
      elim (Bool-cases (k == k' && (v == v' && n == n'))) [
        | inl same ↦ inl (ground arith, ground arith, ground arith)
        | inr ne ↦ inr (record {
          first = leaf_preimage k v n;
          second = leaf_preimage k' v' n';
          known = known;
          differ = λ p.
              let parts = leaf_preimage_inj k v n k' v' n' hk hv hn hk' hv' hn' p in
              ground (arith, parts);
          agree = e;
        })
      ]
