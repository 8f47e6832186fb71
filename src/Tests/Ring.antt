-- ===== src/Tests/Ring.antt =====
-- The block hash ring of a chain of two known hashes, and the state commitment.
use zksync_os_zisk.Prelude.{
  ℕ, ◌+◌, ◌-◌, ◌^◌, ◌≤◌, ◌<◌, ◌≡◌, refl, [], ◌∷◌, some, ◌==◌, leb, if◌then◌else◌, get_or, ok, arith,
}
use zksync_os_zisk.Prelude.Bytes.{be_bytes}
use zksync_os_zisk.Merkle.Hash.{Only, B256, UnlessCollision}
use zksync_os_zisk.Types.{BlockInput, BatchMeta}
use zksync_os_zisk.Commitment.State.{state_preimage, state_commitment_hash_inj}
use zksync_os_zisk.Executor.TreeUpdate.{lookup}
use zksync_os_zisk.Executor.Ring.{
  Hashes, reconstruct_ring, verify_block_hashes_blake_before, reconstruct_block_hashes_blake_after,
}
use zksync_os_zisk.Executor.Ring.Window.{last_hash, reconstruct_ring_lem}
use zksync_os_zisk.Executor.Ring.Chain.{
  RingHashed, window, slots_from, ring_commitment, verify_block_hashes_blake_before_sound,
  reconstruct_block_hashes_blake_after_lem,
}
use zksync_os_zisk.Tests.Toy.{toy_blake2s, toy_hash}
use zksync_os_zisk.Tests.Executor.{block, batch}

abbrev pub chain : ℕ → B256
chain n = if n == 0 then 17 else (if n == 1 then 18 else 0)

abbrev pub history : Hashes
history = (0, 17) ∷ (1, 18) ∷ (5, 99) ∷ []

reconstruct_ring_lem_example :
    get_or (reconstruct_ring 2 history) 254 0
    ≡ (if leb 256 (2 + 254) then last_hash (2 + 254 - 256) history 0 else 0)
reconstruct_ring_lem_example =
    reconstruct_ring_lem 2 254 history (omega arith) (omega arith) (omega arith)

abbrev pub first_block : BlockInput
first_block = record block { number = 2; block_hashes = history }

abbrev pinned : BatchMeta
pinned = record batch.batch_meta { block_hashes_blake_before = ring_commitment chain 2 }

pub chain_fits : (n : ℕ) → chain n < 2 ^ 256
chain_fits n = ground arith

ring_passes : verify_block_hashes_blake_before pinned first_block ≡ ok (reconstruct_ring 2 history)
unfolding verify_block_hashes_blake_before ring_commitment toy_blake2s toy_hash be_bytes
ring_passes = refl

verify_block_hashes_blake_before_sound_example :
    UnlessCollision
      (RingHashed chain 2)
      (reconstruct_ring 2 history ≡ slots_from 256 0 (window chain 2))
verify_block_hashes_blake_before_sound_example =
    verify_block_hashes_blake_before_sound pinned first_block chain (reconstruct_ring 2 history)
      (omega arith) (omega arith) (omega arith) chain_fits refl ring_passes

computed_known : (n : ℕ) → 1 ≤ n → n < 2 → lookup n ((1, 18) ∷ []) ≡ some (chain n)
unfolding lookup
computed_known n lo hi = ground arith

-- The window before block 1 holds one hash; the batch has the blocks 1 and 2.
reconstruct_block_hashes_blake_after_lem_example :
    reconstruct_block_hashes_blake_after 1 2
      (slots_from 256 0 (window chain 1))
      ((1, 18) ∷ [])
      (chain 2)
    ≡ ok (ring_commitment chain 3)
reconstruct_block_hashes_blake_after_lem_example =
    reconstruct_block_hashes_blake_after_lem chain 1 2 ((1, 18) ∷ []) (omega arith) (omega arith)
      computed_known

state_commitment_hash_inj_example : UnlessCollision (Only (state_preimage 9 2 7 3 1600000000)) (
    ◌≡◌ {A = ℕ} 9 9
    × ◌≡◌ {A = ℕ} 2 2
    × ◌≡◌ {A = ℕ} 7 7
    × ◌≡◌ {A = ℕ} 3 3
    × ◌≡◌ {A = ℕ} 1600000000 1600000000)
state_commitment_hash_inj_example =
    state_commitment_hash_inj 9 9 2 2 7 7 3 3 1600000000 1600000000 (omega arith) (omega arith)
      (omega arith) (omega arith) (omega arith) (omega arith) (omega arith) (omega arith)
      (omega arith) (omega arith) refl
