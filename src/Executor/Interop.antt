-- ===== src/Executor/Interop.antt =====
-- The reads of lib/src/executor/interop.rs: values of system contracts, authenticated by slot proofs.
pub mod Sound
use zksync_os_zisk.Prelude.{
  ℕ, ◌+◌, ◌/◌, ◌%◌, ◌^◌, Option, none, some, ◌==◌, Result, ok, err, ◌>>=◌, ◌>>◌, guard,
}
use zksync_os_zisk.Prelude.Bytes.{be_bytes}
use zksync_os_zisk.Types.{Address, InteropSlotProofs, InteropCommitmentTreeProofs}
use zksync_os_zisk.Merkle.Hash.{B256, Blake2s}
use zksync_os_zisk.Merkle.Proof.{StorageProof, ProofError, verify}
use zksync_os_zisk.Commitment.Hash.{Keccak}
use zksync_os_zisk.AccountProps.{derive_flat_storage_key}

-- 0x800b, 0x10005 and 0x10012
abbrev pub system_context_address : Address
system_context_address = 32779

abbrev pub message_root_address : Address
message_root_address = 65541

abbrev pub interop_commitment_tree_address : Address
interop_commitment_tree_address = 65554

abbrev pub agg_tree_height_slot : B256
agg_tree_height_slot = 4

abbrev pub agg_tree_nodes_slot : ℕ
agg_tree_nodes_slot = 6

abbrev pub commitment_tree_height_slot : B256
commitment_tree_height_slot = 0

abbrev pub commitment_tree_nodes_slot : ℕ
commitment_tree_nodes_slot = 2

pub data InteropPanic : Type 0 where
  proof_failed : ProofError → InteropPanic
  wrong_root chain_id_exceeds_u64 : InteropPanic

abbrev pub or_failed {ℓ} : {A : Type ℓ} → Result ProofError A → Result InteropPanic A
or_failed (ok a) = ok a
or_failed (err e) = err (proof_failed e)

-- `unwrap_or(B256::ZERO)`
abbrev pub or_zero : Option B256 → B256
or_zero none = 0
or_zero (some value) = value

pub record InteropCommitmentTreeRoots : Type 0 where
  pub begin : B256
  pub end : B256

pub record DerivedInteropValues : Type 0 where
  pub multichain_root : B256
  pub sl_chain_id : ℕ
  pub commitment_tree_roots : Option InteropCommitmentTreeRoots

module _ ⦃K : Keccak⦄ where
  unfoldable pub nodes_root_slot : ℕ → B256 → B256
  nodes_root_slot nodes_base_slot height =
      K.keccak256 (be_bytes 32 ((K.keccak256 (be_bytes 32 nodes_base_slot) + height) % 2 ^ 256))

module _ ⦃H : Blake2s⦄ where
  unfoldable pub verify_slot : StorageProof → B256 → B256 → Result InteropPanic (Option B256)
  unfolding verify
  verify_slot proof flat_key expected_root = do
    verified ← or_failed (verify proof flat_key)
    guard (verified.0 == expected_root) wrong_root
    ok verified.1

  -- The first 24 of the 32 big-endian bytes are zero, and the last eight are the chain id.
  unfoldable pub derive_sl_chain_id : StorageProof → B256 → Result InteropPanic ℕ
  unfolding verify_slot derive_flat_storage_key
  derive_sl_chain_id proof tree_root_after = do
    value ← verify_slot proof (derive_flat_storage_key system_context_address 0) tree_root_after
    guard (or_zero value / 2 ^ 64 == 0) chain_id_exceeds_u64
    ok (or_zero value % 2 ^ 64)

  module _ ⦃K : Keccak⦄ where
    unfoldable pub derive_merkle_engine_root :
        Address → B256 → ℕ → StorageProof → StorageProof → B256 → Result InteropPanic B256
    unfolding verify_slot derive_flat_storage_key nodes_root_slot
    derive_merkle_engine_root address height_slot nodes_base_slot height_proof root_proof
          anchor_root =
        do
          height ←
              verify_slot height_proof (derive_flat_storage_key address height_slot) anchor_root
          root ←
              verify_slot root_proof
                (derive_flat_storage_key address (nodes_root_slot nodes_base_slot (or_zero height)))
                anchor_root
          ok (or_zero root)

    unfoldable pub derive_multichain_root : InteropSlotProofs → B256 → Result InteropPanic B256
    unfolding derive_merkle_engine_root
    derive_multichain_root proofs tree_root_after =
        derive_merkle_engine_root message_root_address agg_tree_height_slot agg_tree_nodes_slot
          proofs.multichain_height proofs.multichain_root tree_root_after

    unfoldable pub derive_interop_commitment_tree_roots :
        InteropCommitmentTreeProofs → B256 → B256 → Result InteropPanic InteropCommitmentTreeRoots
    unfolding derive_merkle_engine_root
    derive_interop_commitment_tree_roots proofs tree_root_before tree_root_after = do
      begin ←
          derive_merkle_engine_root interop_commitment_tree_address commitment_tree_height_slot
            commitment_tree_nodes_slot proofs.height_begin proofs.root_begin tree_root_before
      end ←
          derive_merkle_engine_root interop_commitment_tree_address commitment_tree_height_slot
            commitment_tree_nodes_slot proofs.height_end proofs.root_end tree_root_after
      ok (record { begin = begin; end = end })
