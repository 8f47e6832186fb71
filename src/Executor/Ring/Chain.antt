-- ===== src/Executor/Ring/Chain.antt =====
-- The rings of lib/src/executor/mod.rs as windows of one chain of block hashes, from batch to batch.
use zksync_os_zisk.Prelude.{
  ℕ, zero, suc, ◌+◌, ◌-◌, ◌%◌, ◌^◌, ◌≤◌, ◌<◌, ◌≡◌, refl, ap, sym, ◌∙◌, inl, inr, true, ◌&&◌, List,
  [], ◌∷◌, ◌++◌, ==→eq, Bool-cases, ltb, leb, if◌then◌else◌, some, length, get_or, set, take,
  replicate, length-take, All, ok, guard-eq-ok, ok_inj, arith,
}
use zksync_os_zisk.Merkle.Hash.{Only, B256, IsB256, Blake2s, UnlessCollision, and_then}
use zksync_os_zisk.Types.{BlockInput, BatchMeta}
use zksync_os_zisk.Commitment.{block_hashes_blake}
use zksync_os_zisk.Commitment.State.{ring_preimage, block_hashes_blake_inj}
use zksync_os_zisk.Executor.TreeUpdate.{lookup}
use zksync_os_zisk.Executor.Ring.{
  Hashes, ring_not_authenticated, fill_slot, fill_ring, reconstruct_ring, after_slot, after_slots,
  verify_block_hashes_blake_before, reconstruct_block_hashes_blake_after, ring_index,
}
use zksync_os_zisk.Executor.Ring.Window.{NumbersFit, length-reconstruct_ring}

-- What a chain of hashes puts at position `p` of the ring of block `n`.
abbrev pub window : (ℕ → B256) → ℕ → ℕ → B256
window chain n p = if leb 256 (n + p) then chain (n + p - 256) else 0

-- The positions `p`, `p + 1`, … of a ring, `k` of them.
unfoldable pub slots_from : ℕ → ℕ → (ℕ → B256) → List B256
slots_from zero p f = []
slots_from (suc k) p f = f p ∷ slots_from k (p + 1) f

length-slots_from : (k p : ℕ) (f : ℕ → B256) → length (slots_from k p f) ≡ k
unfolding slots_from
length-slots_from zero p f = refl
length-slots_from (suc k) p f = ap suc (length-slots_from k (p + 1) f)

slots_from_fit : (k p : ℕ) (f : ℕ → B256) → ((i : ℕ) → IsB256 (f i)) → All IsB256 (slots_from k p f)
unfolding slots_from
slots_from_fit zero p f h = tt
slots_from_fit (suc k) p f h = (h p, slots_from_fit k (p + 1) f h)

slots_from_end :
    (k p : ℕ) (f : ℕ → B256) → slots_from (suc k) p f ≡ slots_from k p f ++ f (p + k) ∷ []
unfolding slots_from
slots_from_end zero p f = ap (λ (i : ℕ). f i ∷ []) (omega arith)
slots_from_end (suc k) p f =
    ap (λ l. f p ∷ l)
      (slots_from_end k (p + 1) f
        ∙ ap (λ (i : ℕ). slots_from k (p + 1) f ++ f i ∷ []) (omega arith))

get_or-slots_from : (k p i : ℕ) (f : ℕ → B256) → i < k → get_or (slots_from k p f) i 0 ≡ f (p + i)
unfolding slots_from
get_or-slots_from zero p i f h = absurd (omega arith)
get_or-slots_from (suc k) p zero f h = ap f (omega arith)
get_or-slots_from (suc k) p (suc i) f h =
    get_or-slots_from k (p + 1) i f (omega arith) ∙ ap f (omega arith)

take_end : (n : ℕ) (xs : List B256) → length xs ≡ suc n → xs ≡ take n xs ++ get_or xs n 0 ∷ []
take_end n [] e = absurd (omega arith)
take_end zero (x ∷ []) e = refl
take_end zero (x ∷ y ∷ xs) e = absurd (omega arith)
take_end (suc n) (x ∷ xs) e = ap (λ l. x ∷ l) (take_end n xs (omega arith))

All-take : (n : ℕ) (xs : List B256) → All IsB256 xs → All IsB256 (take n xs)
All-take zero xs h = tt
All-take (suc n) [] h = tt
All-take (suc n) (x ∷ xs) (b, h) = (b, All-take n xs h)

All-get_or : (xs : List B256) (i : ℕ) → All IsB256 xs → IsB256 (get_or xs i 0)
All-get_or [] i h = omega arith
All-get_or (x ∷ xs) zero (b, h) = b
All-get_or (x ∷ xs) (suc i) (b, h) = All-get_or xs i h

All-set : (xs : List B256) (i : ℕ) (v : B256) → All IsB256 xs → IsB256 v → All IsB256 (set xs i v)
All-set [] i v h hv = tt
All-set (x ∷ xs) zero v (b, h) hv = (hv, h)
All-set (x ∷ xs) (suc i) v (b, h) hv = (b, All-set xs i v h hv)

-- The hashes of a history are 32-byte values.
abbrev pub HashesFit : Hashes → Type 0
HashesFit hashes = All (λ entry. IsB256 entry.1) hashes

fill_ring_fits :
    (owner : ℕ) (ring : List B256) (hashes : Hashes)
    → All IsB256 ring
    → HashesFit hashes
    → All IsB256 (fill_ring owner ring hashes)
unfolding fill_ring fill_slot
fill_ring_fits owner ring [] hr hs = hr
fill_ring_fits owner ring ((num, hash) ∷ hashes) hr (b, hs) =
    fill_ring_fits owner (fill_slot owner ring num hash) hashes
      (elim (Bool-cases (ltb num owner && leb (owner - num) 256)) [
        | inl inside ↦ rw inside (All-set ring (ring_index owner num) hash hr b)
        | inr outside ↦ rw outside hr
      ])
      hs

zeros_fit : (n : ℕ) → All IsB256 (replicate n 0)
zeros_fit zero = tt
zeros_fit (suc n) = (omega arith, zeros_fit n)

reconstruct_ring_fits :
    (owner : ℕ) (hashes : Hashes) → HashesFit hashes → All IsB256 (reconstruct_ring owner hashes)
unfolding reconstruct_ring
reconstruct_ring_fits owner hashes h =
    fill_ring_fits owner (replicate 256 0) hashes (zeros_fit 256) h

-- A chain of 32-byte hashes.
abbrev pub IsChain : (ℕ → B256) → Type 0
IsChain chain = (n : ℕ) → IsB256 (chain n)

window_fits : (chain : ℕ → B256) (n p : ℕ) → IsChain chain → IsB256 (window chain n p)
window_fits chain n p h = elim (Bool-cases (leb 256 (n + p))) [
  | inl old ↦ rw old (h (n + p - 256))
  | inr young ↦ rw young (omega arith)
]

module _ (chain : ℕ → B256) (f l : ℕ) (computed : Hashes) (order : f ≤ l) (fits : l < 2 ^ 64)
    (known : (n : ℕ) → f ≤ n → n < l → lookup n computed ≡ some (chain n)) where
  after_slot_lem :
      (p : ℕ)
      → p < 255
      → after_slot f l (slots_from 256 0 (window chain f)) computed p ≡ ok (window chain (l + 1) p)
  unfolding after_slot
  after_slot_lem p lt = elim (Bool-cases (ltb (l + p) 255)) [
    | inl young ↦ rw young (ground (arith, young))
    | inr old ↦
        let here : window chain (l + 1) p ≡ chain (l + p - 255) = ground (arith, old) in
        elim (Bool-cases (leb f (l + p - 255))) [
          | inl intra ↦
              let found = known (l + p - 255) (ground (arith, intra)) (ground (arith, old)) in
              let below : leb (l + p - 255) ((l + 2 ^ 64 - 1) % 2 ^ 64) ≡ true = ground arith in
              rw (old, intra, below, found) (ap ok (sym here))
          | inr pre ↦
              let before : ltb (l + p - 255) f ≡ true = ground (arith, pre) in
              let inside : (leb f (l + p - 255 + 256) && ltb (l + p - 255 + 256 - f) 256) ≡ true =
                ground (arith, pre, old) in
              let slot =
                get_or-slots_from 256 0 (l + p - 255 + 256 - f) (window chain f)
                  (ground (arith, pre, old)) in
              let same : window chain f (0 + (l + p - 255 + 256 - f)) ≡ chain (l + p - 255) =
                ground (arith, pre, old) in
              rw (old, pre, before, inside) (ap ok (slot ∙ same ∙ sym here))
        ]
  ]

  after_slots_lem :
      (k p : ℕ)
      → p + k ≡ 255
      → after_slots f l (slots_from 256 0 (window chain f)) computed k p
        ≡ ok (slots_from k p (window chain (l + 1)))
  unfolding after_slots slots_from
  after_slots_lem zero p e = refl
  after_slots_lem (suc k) p e =
      rw (after_slot_lem p (omega arith), after_slots_lem k (p + 1) (omega arith)) refl

module _ ⦃H : Blake2s⦄ where
  -- The commitment to the window of a chain before block `n`.
  unfoldable pub ring_commitment : (ℕ → B256) → ℕ → B256
  unfolding block_hashes_blake slots_from
  ring_commitment chain n =
      block_hashes_blake (slots_from 255 0 (window chain n)) (window chain n 255)

  -- What that commitment hashes.
  abbrev pub RingHashed : (ℕ → B256) → ℕ → List ℕ → Type 0
  RingHashed chain n m =
      Only (ring_preimage (slots_from 255 0 (window chain n)) (window chain n 255)) m

  -- If the pinned commitment is that of the window of a chain before the first block, and the witnessed
  -- ring passes the check, then the ring is that window, unless a second preimage of what the pinned
  -- commitment hashes is at hand: for
  -- block numbers and hashes in the range of their types.
  pub verify_block_hashes_blake_before_sound :
      (meta : BatchMeta) (first_block : BlockInput) (chain : ℕ → B256) (ring : List B256)
      → first_block.number < 2 ^ 64
      → NumbersFit first_block.block_hashes
      → HashesFit first_block.block_hashes
      → IsChain chain
      → meta.block_hashes_blake_before ≡ ring_commitment chain first_block.number
      → verify_block_hashes_blake_before meta first_block ≡ ok ring
      → UnlessCollision
          (RingHashed chain first_block.number)
          (ring ≡ slots_from 256 0 (window chain first_block.number))
  unfolding verify_block_hashes_blake_before ring_commitment
  verify_block_hashes_blake_before_sound meta first_block chain ring nf numbers hashes linked pinned
        e =
      let n = first_block.number in
      let built = reconstruct_ring first_block.number first_block.block_hashes in
      let typed = reconstruct_ring_fits n first_block.block_hashes hashes in
      let size = length-reconstruct_ring first_block.number first_block.block_hashes nf in
      let (same, out) = guard-eq-ok _ ring_not_authenticated (ok built) e in
      let w = window chain first_block.number in
      and_then
        (block_hashes_blake_inj (take 255 built) (slots_from 255 0 w) (get_or built 255 0) (w 255)
          (length-take 255 built (omega (arith, size)) ∙ sym (length-slots_from 255 0 w))
          (All-take 255 built typed) (slots_from_fit 255 0 w (λ p. window_fits chain n p linked))
          (All-get_or built 255 typed) (window_fits chain n 255 linked) (==→eq _ _ same ∙ pinned))
        λ (slots, end). inl (
          sym (ok_inj out)
          ∙ take_end 255 built size
          ∙ (λ i. slots i ++ end i ∷ [])
          ∙ sym (slots_from_end 255 0 w))

  -- From a ring that is the window of a chain before the first block `f`, the ring after the last
  -- block `l` is committed as the window of that chain before block `l + 1`, which is what the next
  -- batch checks its ring against. The chain has the computed hashes of the blocks from `f` up to
  -- `l`; `l` is a u64 and not below `f`.
  pub reconstruct_block_hashes_blake_after_lem :
      (chain : ℕ → B256) (f l : ℕ) (computed : Hashes)
      → f ≤ l
      → l < 2 ^ 64
      → ((n : ℕ) → f ≤ n → n < l → lookup n computed ≡ some (chain n))
      → reconstruct_block_hashes_blake_after f l
          (slots_from 256 0 (window chain f))
          computed
          (chain l)
        ≡ ok (ring_commitment chain (l + 1))
  unfolding reconstruct_block_hashes_blake_after ring_commitment
  reconstruct_block_hashes_blake_after_lem chain f l computed order fits known =
      let last : window chain (l + 1) 255 ≡ chain l = ground arith in
      rw (after_slots_lem chain f l computed order fits known 255 0 refl, last) refl
