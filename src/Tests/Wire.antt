-- ===== src/Tests/Wire.antt =====
-- The theorems on the wire boundary, for an empty batch and one with a transaction.
use zksync_os_zisk.Prelude.{
  ◌<◌, ◌≤◌, ◌≢◌, true, ℕ, ◌≡◌, refl, ap, ◌↔◌, false, none, some, [], ◌∷◌, Result, ok, err, ok_inj,
  arith,
}
use zksync_os_zisk.Types
use zksync_os_zisk.Types.{
  InteropSlotProofs, InteropCommitmentTreeProofs, Bytes, BatchMeta, BatchInput, BlockInput,
}
use zksync_os_zisk.Wire.V3
use zksync_os_zisk.Wire.V3.{
  unsupported_spec, unsupported_pubdata_content, interop_commitment_tree, ConversionError,
}
use zksync_os_zisk.Wire.V3.Normalize
use zksync_os_zisk.Wire.V3.Freeze
use zksync_os_zisk.Wire.V3.RoundTrip.{
  freeze-normalize, normalize-freeze, IsAccepted, freeze_lem, as_v3,
}
use zksync_os_zisk.Wire.V5
use zksync_os_zisk.Wire.Decode.{
  Bincode, IsPositional, decode_batch_input, IsNormalized, decode_batch_input_lem,
}

abbrev block_v3 : V3.BlockInput
block_v3 = record {
  number = 8;
  timestamp = 1700000000;
  base_fee = 250;
  gas_limit = 30000000;
  coinbase = 0;
  prev_randao = 1;
  transactions =
      record {
        chain_id = some 270;
        gas_used_override = none;
        force_fail = false;
        auth = V3.l2 (2 ∷ 3 ∷ []);
      }
      ∷ [];
  account_preimages = [];
  block_hashes = [];
  storage_proofs =
      (5, V3.existing (record { index = 1; value = 2; next_index = 1; siblings = [] })) ∷ [];
  block_header_hash = 0;
  l2_to_l1_logs = [];
  expected_tree_root = 9;
}

abbrev meta_v3 : V3.BatchMeta
meta_v3 = record {
  tree_root_before = 9;
  leaf_count_before = 2;
  block_number_before = 7;
  last_block_timestamp_before = 1600000000;
  block_hashes_blake_before = 3;
  previous_block_hashes = [];
  upgrade_tx_hash = 0;
  da_commitment_scheme = 2;
  pubdata = [];
  multichain_root = 0;
  sl_chain_id = 1;
  blob_versioned_hashes = [];
  tree_update = none;
  account_preimages_after = [];
  fri_proof_verification_enabled = false;
  max_tx_gas_limit = 0;
  interop_proofs = none;
}

abbrev batch_v3 : V3.BatchInput
batch_v3 = record {
  version = 3;
  chain_id = 270;
  spec_id = 2;
  protocol_version_minor = 31;
  blocks = block_v3 ∷ [];
  batch_meta = meta_v3;
  bytecodes = [];
}

freeze-normalize_example : Freeze.batch_input (Normalize.batch_input batch_v3) ≡ ok batch_v3
freeze-normalize_example = freeze-normalize batch_v3 refl (omega arith)

-- A batch with a flag that wire version 3 lacks.
abbrev flagged : BatchInput
flagged = record (Normalize.batch_input batch_v3) {
  batch_meta = record (Normalize.batch_input batch_v3).batch_meta {
    l1_tx_filtering_enabled = true;
  };
}

flag_dropped : Freeze.batch_input flagged ≡ ok batch_v3
unfolding Freeze.batch_input Normalize.batch_input
flag_dropped = refl

normalize-freeze_example :
    (Normalize.batch_input batch_v3 ≡ as_v3 flagged)
    × ((Normalize.batch_input batch_v3 ≡ record flagged { version = 3 }) ↔ (
        (flagged.batch_meta.l1_tx_filtering_enabled ≡ false)
        × (flagged.batch_meta.large_contracts_enabled ≡ false)))
normalize-freeze_example = normalize-freeze flagged batch_v3 flag_dropped

freeze_lem_example :
    (((x : V3.BatchInput) × (Freeze.batch_input flagged ≡ ok x)) ↔ IsAccepted flagged)
    × (2 < flagged.spec_id → Freeze.batch_input flagged ≡ err (unsupported_spec flagged.spec_id))
    × (flagged.spec_id ≤ 2
        → flagged.batch_meta.pubdata_content ≢ 0
        → Freeze.batch_input flagged
          ≡ err (unsupported_pubdata_content flagged.batch_meta.pubdata_content))
    × ((p : InteropSlotProofs) (t : InteropCommitmentTreeProofs)
        → flagged.spec_id ≤ 2
        → flagged.batch_meta.pubdata_content ≡ 0
        → flagged.batch_meta.interop_proofs ≡ some p
        → p.commitment_tree ≡ some t
        → Freeze.batch_input flagged ≡ err interop_commitment_tree)
freeze_lem_example = freeze_lem flagged

-- Decoders that read the version from the first byte.
toy_u32 : Bytes → Result (Unit {0}) ℕ
toy_u32 [] = err tt
toy_u32 (v ∷ rest) = ok v

toy_v3 : Bytes → Result (Unit {0}) V3.BatchInput
toy_v3 [] = err tt
toy_v3 (v ∷ rest) = ok (record batch_v3 { version = v })

toy_v5 : Bytes → Result (Unit {0}) V5.BatchInput
toy_v5 bytes = err tt

toy_current : Bytes → Result (Unit {0}) Types.BatchInput
toy_current bytes = err tt

instance toy_bincode : Bincode
toy_bincode = record {
  DecodeError = Unit {0};
  decode_u32 = toy_u32;
  decode_v3 = toy_v3;
  decode_v5 = toy_v5;
  decode_current = toy_current;
}

toy_bincode-IsPositional : IsPositional toy_bincode
unfolding toy_bincode toy_u32 toy_v3 toy_v5 toy_current
toy_bincode-IsPositional = record {
  first_v3 = first_v3;
  first_v5 = λ bytes x e. absurd (cc);
  first_current = λ bytes x e. absurd (cc);
}
  where
    first_v3 :
        (bytes : Bytes) (x : V3.BatchInput) → toy_v3 bytes ≡ ok x → toy_u32 bytes ≡ ok x.version
    first_v3 [] x e = absurd (cc)
    first_v3 (v ∷ rest) x e = ap ok (ap (λ y. y.version) (ok_inj e))

version_3_decodes : decode_batch_input (3 ∷ []) ≡ ok (Normalize.batch_input batch_v3)
unfolding decode_batch_input toy_bincode toy_u32 toy_v3
version_3_decodes = refl

decode_batch_input_lem_example : IsNormalized (3 ∷ []) (Normalize.batch_input batch_v3)
decode_batch_input_lem_example =
    decode_batch_input_lem (3 ∷ []) (Normalize.batch_input batch_v3) toy_bincode-IsPositional
      version_3_decodes
