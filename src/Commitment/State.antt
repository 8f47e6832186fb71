-- ===== src/Commitment/State.antt =====
-- What the state commitment and the commitment to the block hash ring bind (lib/src/commitment.rs).
use zksync_os_zisk.Prelude.{
  ℕ, ◌≡◌, refl, ◌∙◌, sym, inl, inr, List, [], ◌∷◌, ◌++◌, map, length, All, concat, arith,
}
use mathlib.Core.List.{append_assoc}
use zksync_os_zisk.Prelude.Bytes.{be_bytes, be_bytes_inj, be_bytes_eq}
use zksync_os_zisk.Merkle.Hash.{Only, B256, IsB256, IsU64, Blake2s, UnlessCollision, and_then}
use zksync_os_zisk.Commitment.Hash.{bytes_cases}
use zksync_os_zisk.Commitment.{state_commitment_hash, block_hashes_blake}

pub hashes_inj :
    (xs ys : List B256) (xt yt : List ℕ)
    → length xs ≡ length ys
    → All IsB256 xs
    → All IsB256 ys
    → concat (map (λ hash. be_bytes 32 hash) xs) ++ xt
      ≡ concat (map (λ hash. be_bytes 32 hash) ys) ++ yt
    → (xs ≡ ys) × (xt ≡ yt)
hashes_inj [] [] xt yt el hx hy e = (refl, e)
hashes_inj [] (y ∷ ys) xt yt el hx hy e = absurd (omega arith)
hashes_inj (x ∷ xs) [] xt yt el hx hy e = absurd (omega arith)
hashes_inj (x ∷ xs) (y ∷ ys) xt yt el (hx, hxs) (hy, hys) e =
    let rest = λ (zs : List B256). concat (map (λ hash. be_bytes 32 hash) zs) in
    let (same, tails) = be_bytes_inj 32 x y (rest xs ++ xt) (rest ys ++ yt) hx hy (
      sym (append_assoc (be_bytes 32 x) (rest xs) xt)
      ∙ e
      ∙ append_assoc (be_bytes 32 y) (rest ys) yt) in
    let (lists, ends) = hashes_inj xs ys xt yt (omega arith) hxs hys tails in
    ((λ i. same i ∷ lists i), ends)

-- What the commitment to a ring and a last hash hashes.
abbrev pub ring_preimage : List B256 → B256 → List ℕ
ring_preimage hashes last = concat (map (λ hash. be_bytes 32 hash) hashes) ++ be_bytes 32 last

-- What the commitment to a state hashes.
abbrev pub state_preimage : B256 → ℕ → ℕ → B256 → ℕ → List ℕ
state_preimage root count number ring time = concat (
    be_bytes 32 root
    ∷ be_bytes 8 count
    ∷ be_bytes 8 number
    ∷ be_bytes 32 ring
    ∷ be_bytes 8 time
    ∷ [])

module _ ⦃H : Blake2s⦄ where
  pub blake2s_inj :
      {Q : List ℕ → Type 0} (m n : List ℕ)
      → Q n
      → H.blake2s m ≡ H.blake2s n
      → UnlessCollision Q (m ≡ n)
  blake2s_inj m n known e = elim (bytes_cases m n) [
    | inl same ↦ inl same
    | inr differ ↦ inr (record { first = m; second = n; known = known; differ = differ; agree = e })
  ]

  -- Of two rings of one length whose hashes are 32-byte values, the commitment determines every slot
  -- and the last hash, unless a second preimage of what the second commitment hashes is at hand.
  pub block_hashes_blake_inj :
      (xs ys : List B256) (x y : B256)
      → length xs ≡ length ys
      → All IsB256 xs
      → All IsB256 ys
      → IsB256 x
      → IsB256 y
      → block_hashes_blake xs x ≡ block_hashes_blake ys y
      → UnlessCollision (Only (ring_preimage ys y)) ((xs ≡ ys) × (x ≡ y))
  unfolding block_hashes_blake
  block_hashes_blake_inj xs ys x y el hxs hys hx hy e = and_then (blake2s_inj _ _ refl e) λ p.
      let (same, ends) = hashes_inj xs ys (be_bytes 32 x) (be_bytes 32 y) el hxs hys p in
      inl (same, be_bytes_eq 32 x y hx hy ends)

  -- Two states with one commitment have one tree root, one leaf count, one block number, one
  -- commitment to the block hashes and one timestamp, unless a second preimage of what the second
  -- commitment hashes is at hand: for values in the range of their types.
  pub state_commitment_hash_inj :
      (root root' : B256) (count count' number number' : ℕ) (ring ring' : B256) (time time' : ℕ)
      → IsB256 root
      → IsB256 root'
      → IsU64 count
      → IsU64 count'
      → IsU64 number
      → IsU64 number'
      → IsB256 ring
      → IsB256 ring'
      → IsU64 time
      → IsU64 time'
      → state_commitment_hash root count number ring time
        ≡ state_commitment_hash root' count' number' ring' time'
      → UnlessCollision
          (Only (state_preimage root' count' number' ring' time'))
          ((root ≡ root') × (count ≡ count') × (number ≡ number') × (ring ≡ ring') × (time ≡ time'))
  unfolding state_commitment_hash
  state_commitment_hash_inj root root' count count' number number' ring ring' time time' h₁ h₁' h₂
        h₂' h₃ h₃' h₄ h₄' h₅ h₅' e =
      and_then (blake2s_inj _ _ refl e) λ p.
        let (e₁, p₁) = be_bytes_inj 32 root root' _ _ h₁ h₁' p in
        let (e₂, p₂) = be_bytes_inj 8 count count' _ _ h₂ h₂' p₁ in
        let (e₃, p₃) = be_bytes_inj 8 number number' _ _ h₃ h₃' p₂ in
        let (e₄, p₄) = be_bytes_inj 32 ring ring' _ _ h₄ h₄' p₃ in
        let (e₅, p₅) = be_bytes_inj 8 time time' [] [] h₅ h₅' p₄ in inl (e₁, e₂, e₃, e₄, e₅)
