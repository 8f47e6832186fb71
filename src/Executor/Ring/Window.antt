-- ===== src/Executor/Ring/Window.antt =====
-- The ring that a witness rebuilds (lib/src/executor/mod.rs) and the window of a chain of hashes.
use zksync_os_zisk.Prelude.{
  ℕ, zero, suc, ◌+◌, ◌-◌, ◌^◌, ◌<◌, ◌≡◌, refl, ap, ◌∙◌, inl, inr, true, false, ◌&&◌, List, [], ◌∷◌,
  ◌==◌, Bool-cases, ltb, leb, if◌then◌else◌, length, length-set, get_or, set, replicate, All, arith,
}
use zksync_os_zisk.Merkle.Hash.{B256}
use zksync_os_zisk.Executor.Ring.{Hashes, ring_index, fill_slot, fill_ring, reconstruct_ring}

-- The hash that the history gives last for a number.
unfoldable pub last_hash : ℕ → Hashes → B256 → B256
last_hash n [] found = found
last_hash n ((num, hash) ∷ hashes) found = last_hash n hashes (if num == n then hash else found)

get_or-set :
    (xs : List B256) (i j : ℕ) (v : B256)
    → i < length xs
    → get_or (set xs i v) j 0 ≡ (if i == j then v else get_or xs j 0)
get_or-set [] i j v h = absurd (omega arith)
get_or-set (x ∷ xs) zero zero v h = refl
get_or-set (x ∷ xs) zero (suc j) v h = ground arith
get_or-set (x ∷ xs) (suc i) zero v h = ground arith
get_or-set (x ∷ xs) (suc i) (suc j) v h = ground (arith, get_or-set xs i j v)

get_or-replicate : (n j : ℕ) → get_or {A = ℕ} (replicate n 0) j 0 ≡ 0
get_or-replicate zero j = refl
get_or-replicate (suc n) zero = refl
get_or-replicate (suc n) (suc j) = get_or-replicate n j

-- Block numbers are u64.
abbrev pub NumbersFit : Hashes → Type 0
NumbersFit hashes = All (λ entry. entry.0 < 2 ^ 64) hashes

module _ (owner : ℕ) (fits : owner < 2 ^ 64) where
  length-fill_slot :
      (num : ℕ) (hash : B256) (ring : List B256)
      → length (fill_slot owner ring num hash) ≡ length ring
  unfolding fill_slot
  length-fill_slot num hash ring = elim (Bool-cases (ltb num owner && leb (owner - num) 256)) [
    | inl inside ↦ rw inside (length-set ring (ring_index owner num) hash)
    | inr outside ↦ rw outside refl
  ]

  -- One entry of the history, at position `p` of the ring.
  fill_slot_lem :
      (num p : ℕ) (hash : B256) (ring : List B256)
      → num < 2 ^ 64
      → length ring ≡ 256
      → p < 256
      → get_or (fill_slot owner ring num hash) p 0
        ≡ (if leb 256 (owner + p) && num == (owner + p - 256) then hash else get_or ring p 0)
  unfolding fill_slot
  fill_slot_lem num p hash ring nf size lt =
      elim (Bool-cases (ltb num owner && leb (owner - num) 256)) [
        | inl inside ↦
            let slot : ring_index owner num ≡ num + 256 - owner = ground arith in
            rw inside (
              get_or-set ring (ring_index owner num) p hash (ground (arith, slot, inside))
              ∙ ground (arith, slot, inside))
        | inr outside ↦ rw outside (ground (arith, outside))
      ]

  length-fill_ring :
      (hashes : Hashes) (ring : List B256) → length (fill_ring owner ring hashes) ≡ length ring
  unfolding fill_ring
  length-fill_ring [] ring = refl
  length-fill_ring ((num, hash) ∷ hashes) ring =
      length-fill_ring hashes (fill_slot owner ring num hash) ∙ length-fill_slot num hash ring

  module _ (p : ℕ) (lt : p < 256) where
    fill_inside :
        (hashes : Hashes) (ring : List B256)
        → leb 256 (owner + p) ≡ true
        → length ring ≡ 256
        → NumbersFit hashes
        → get_or (fill_ring owner ring hashes) p 0
          ≡ last_hash (owner + p - 256) hashes (get_or ring p 0)
    unfolding fill_ring last_hash
    fill_inside [] ring old size typed = refl
    fill_inside ((num, hash) ∷ hashes) ring old size (nf, typed) =
        fill_inside hashes (fill_slot owner ring num hash) old
          (length-fill_slot num hash ring ∙ size) typed
        ∙ ap (last_hash (owner + p - 256) hashes)
            (fill_slot_lem num p hash ring nf size lt ∙ rw old refl)

    fill_outside :
        (hashes : Hashes) (ring : List B256)
        → leb 256 (owner + p) ≡ false
        → length ring ≡ 256
        → NumbersFit hashes
        → get_or (fill_ring owner ring hashes) p 0 ≡ get_or ring p 0
    unfolding fill_ring
    fill_outside [] ring young size typed = refl
    fill_outside ((num, hash) ∷ hashes) ring young size (nf, typed) =
        fill_outside hashes (fill_slot owner ring num hash) young
          (length-fill_slot num hash ring ∙ size) typed
        ∙ fill_slot_lem num p hash ring nf size lt
        ∙ rw young refl

pub length-reconstruct_ring :
    (owner : ℕ) (hashes : Hashes) → owner < 2 ^ 64 → length (reconstruct_ring owner hashes) ≡ 256
unfolding reconstruct_ring
length-reconstruct_ring owner hashes fits = length-fill_ring owner fits hashes (replicate 256 0)

-- The ring that is rebuilt from a history of block numbers and hashes, for a block whose number and
-- the history's are in the range of u64, holds at each position `p` below 256 the hash that the history
-- gives last for block `owner + p - 256`: zero if it gives none, or if there is no such block.
pub reconstruct_ring_lem :
    (owner p : ℕ) (hashes : Hashes)
    → owner < 2 ^ 64
    → NumbersFit hashes
    → p < 256
    → get_or (reconstruct_ring owner hashes) p 0
      ≡ (if leb 256 (owner + p) then last_hash (owner + p - 256) hashes 0 else 0)
unfolding reconstruct_ring
reconstruct_ring_lem owner p hashes fits typed lt = elim (Bool-cases (leb 256 (owner + p))) [
  | inl old ↦ rw old (
      fill_inside owner fits p lt hashes (replicate 256 0) old refl typed
      ∙ ap (last_hash (owner + p - 256) hashes) (get_or-replicate 256 p))
  | inr young ↦ rw young (
      fill_outside owner fits p lt hashes (replicate 256 0) young refl typed
      ∙ get_or-replicate 256 p)
]
