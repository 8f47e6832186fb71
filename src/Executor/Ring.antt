-- ===== src/Executor/Ring.antt =====
-- The block hash ring of lib/src/executor/mod.rs: the 256 hashes before a block, rebuilt from the
-- witness and checked against the pinned commitment, and the ring after the batch. The computed hashes
-- are an association list, whose first entry of a number counts.
pub mod Window
pub mod Chain
use zksync_os_zisk.Prelude.{
  ℕ, zero, suc, ◌+◌, ◌-◌, ◌%◌, ◌^◌, Bool, true, false, ◌&&◌, List, [], ◌∷◌, ◌==◌, ltb, leb,
  if◌then◌else◌, Option, none, some, get_or, set, take, replicate, Result, ok, err, ◌>>=◌, ◌>>◌,
  guard, from_option,
}
use zksync_os_zisk.Merkle.Hash.{B256, Blake2s}
use zksync_os_zisk.Types.{BlockInput, BatchMeta}
use zksync_os_zisk.Commitment.{block_hashes_blake}
use zksync_os_zisk.Executor.TreeUpdate.{lookup}

abbrev pub Hashes : Type 0
Hashes = List (ℕ × B256)

pub data RingPanic : Type 0 where
  intra_batch_mismatch ring_not_authenticated not_computed : RingPanic

-- One witnessed block hash against the computed ones.
unfoldable pub check_computed : Hashes → ℕ → B256 → Result RingPanic (Unit {0})
unfolding lookup
check_computed computed num hash = elim (lookup num computed) [
  | none ↦ ok tt
  | some expected ↦ guard (hash == expected) intra_batch_mismatch
]

unfoldable pub check_intra_batch : Hashes → Hashes → Result RingPanic (Unit {0})
unfolding check_computed
check_intra_batch computed [] = ok tt
check_intra_batch computed ((num, hash) ∷ rest) =
    check_computed computed num hash >> check_intra_batch computed rest

unfoldable pub verify_intra_batch_hashes : BlockInput → Hashes → Result RingPanic (Unit {0})
unfolding check_intra_batch
verify_intra_batch_hashes block computed = check_intra_batch computed block.block_hashes

-- `num + 256 - owner_block_number`, on u64.
abbrev pub ring_index : ℕ → ℕ → ℕ
ring_index owner num = ((num + 256) % 2 ^ 64 + 2 ^ 64 - owner) % 2 ^ 64

-- The body of the loop of `reconstruct_ring`.
unfoldable pub fill_slot : ℕ → List B256 → ℕ → B256 → List B256
fill_slot owner ring num hash =
    if ltb num owner && leb (owner - num) 256 then set ring (ring_index owner num) hash else ring

unfoldable pub fill_ring : ℕ → List B256 → Hashes → List B256
unfolding fill_slot
fill_ring owner ring [] = ring
fill_ring owner ring ((num, hash) ∷ hashes) = fill_ring owner (fill_slot owner ring num hash) hashes

unfoldable pub reconstruct_ring : ℕ → Hashes → List B256
unfolding fill_ring
reconstruct_ring owner hashes = fill_ring owner (replicate 256 0) hashes

-- The slot of the ring after the batch at position `p`.
unfoldable pub after_slot : ℕ → ℕ → List B256 → Hashes → ℕ → Result RingPanic B256
unfolding lookup
after_slot f l before_ring computed p =
    if ltb (l + p) 255
    then ok 0
    else (let n = l + p - 255 in
        if leb f n && leb n ((l + 2 ^ 64 - 1) % 2 ^ 64)
        then from_option (lookup n computed) not_computed
        else (if ltb n f
            then (if leb f (n + 256) && ltb (n + 256 - f) 256
                then ok (get_or before_ring (n + 256 - f) 0)
                else ok 0)
            else ok 0))

-- `k` slots, from position `p` on.
unfoldable pub after_slots : ℕ → ℕ → List B256 → Hashes → ℕ → ℕ → Result RingPanic (List B256)
unfolding after_slot
after_slots f l before_ring computed zero p = ok []
after_slots f l before_ring computed (suc k) p = do
  slot ← after_slot f l before_ring computed p
  slots ← after_slots f l before_ring computed k (p + 1)
  ok (slot ∷ slots)

module _ ⦃H : Blake2s⦄ where
  unfoldable pub verify_block_hashes_blake_before :
      BatchMeta → BlockInput → Result RingPanic (List B256)
  unfolding reconstruct_ring block_hashes_blake
  verify_block_hashes_blake_before meta first_block =
      let ring = reconstruct_ring first_block.number first_block.block_hashes in
      guard
        (block_hashes_blake (take 255 ring) (get_or ring 255 0) == meta.block_hashes_blake_before)
        ring_not_authenticated
      >> ok ring

  unfoldable pub reconstruct_block_hashes_blake_after :
      ℕ → ℕ → List B256 → Hashes → B256 → Result RingPanic B256
  unfolding after_slots block_hashes_blake
  reconstruct_block_hashes_blake_after f l before_ring computed last = do
    slots ← after_slots f l before_ring computed 255 0
    ok (block_hashes_blake slots last)
