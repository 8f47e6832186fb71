-- ===== src/Wire/V3/RoundTrip.antt =====
-- The conversions of lib/src/wire/v3.rs between the frozen schema and the current one, as a whole.
use mathlib.Core.Option
use mathlib.Core.Path.{ap₂}
use zksync_os_zisk.Prelude.{
  ◌≤◌, ◌<◌, ◌≢◌, ◌∙◌, ◌≡◌, refl, ap, sym, ◌↔◌, inl, inr, true, false, Bool-cases, ◌==◌, ==→eq, ltb,
  ltb→lt, ltb→le, Option, none, some, ok, err, Result-cases, ok_inj, Option-cases, arith,
}
use zksync_os_zisk.Types.{InteropSlotProofs, InteropCommitmentTreeProofs, BatchMeta, BatchInput}
use zksync_os_zisk.Wire.V3
use zksync_os_zisk.Wire.V3.{
  ConversionError, unsupported_spec, unsupported_pubdata_content, interop_commitment_tree,
}
use zksync_os_zisk.Wire.V3.Normalize
use zksync_os_zisk.Wire.V3.Freeze
use zksync_os_zisk.Wire.V3.Nested.{
  map-Undoes, option-Undoes, storage_proof_written, storage_proof_read, batch_tree_update_written,
  batch_tree_update_read, block_input_written, block_input_read,
}

interop_proofs_written :
    (o : Option V3.InteropSlotProofs)
    → Freeze.interop_proofs_of (Option.map Normalize.interop_slot_proofs o) ≡ ok o
unfolding Freeze.interop_proofs_of Freeze.interop_slot_proofs Normalize.interop_slot_proofs
interop_proofs_written none = refl
interop_proofs_written (some x) =
    ap (λ p. ok (some p))
      (λ i. record {
        sl_chain_id = storage_proof_written x.sl_chain_id i;
        multichain_height = storage_proof_written x.multichain_height i;
        multichain_root = storage_proof_written x.multichain_root i;
      })

meta_written : (m : V3.BatchMeta) → Freeze.batch_meta (Normalize.batch_meta m) ≡ ok m
unfolding Freeze.batch_meta Normalize.batch_meta
meta_written m = rw (interop_proofs_written m.interop_proofs) (
    ap (λ t. ok (record m { tree_update = t }))
      (option-Undoes Freeze.batch_tree_update Normalize.batch_tree_update batch_tree_update_written
        m.tree_update))

-- Writing what was read from wire version 3 gives it back, for a batch of version 3 whose spec is one
-- that the version can carry.
pub freeze-normalize :
    (x : V3.BatchInput)
    → x.version ≡ 3
    → x.spec_id ≤ 2
    → Freeze.batch_input (Normalize.batch_input x) ≡ ok x
unfolding Freeze.batch_input Normalize.batch_input
freeze-normalize x version spec = elim (Bool-cases (ltb 2 x.spec_id)) [
  | inl above ↦ absurd (omega (arith, ltb→lt _ _ above))
  | inr within ↦
      rw (within, meta_written x.batch_meta)
        (ap₂ (λ v b. ok (record x { version = v; blocks = b })) (sym version)
          (map-Undoes Freeze.block_input Normalize.block_input block_input_written x.blocks))
]

-- What reading and writing does to the current form of a batch that can be written.
abbrev pub as_v3 : BatchInput → BatchInput
as_v3 y = record y {
  version = 3;
  batch_meta = record y.batch_meta {
    l1_tx_filtering_enabled = false;
    large_contracts_enabled = false;
  };
}

interop_proofs_read :
    (o : Option InteropSlotProofs) (p : Option V3.InteropSlotProofs)
    → Freeze.interop_proofs_of o ≡ ok p
    → Option.map Normalize.interop_slot_proofs p ≡ o
unfolding Freeze.interop_proofs_of Freeze.interop_slot_proofs Normalize.interop_slot_proofs
interop_proofs_read none p e = rw (← ok_inj e) refl
interop_proofs_read (some y) p e = elim (Option-cases y.commitment_tree) [
  | inr (proofs, r) ↦ absurd (cc (rw r at e))
  | inl r ↦ rw (← ok_inj (rw r at e)) (
      ap some (λ i. record {
        sl_chain_id = storage_proof_read y.sl_chain_id i;
        multichain_height = storage_proof_read y.multichain_height i;
        multichain_root = storage_proof_read y.multichain_root i;
        commitment_tree = sym r i;
      }))
]

meta_read :
    (y : BatchMeta) (m : V3.BatchMeta)
    → Freeze.batch_meta y ≡ ok m
    → Normalize.batch_meta m
      ≡ record y { l1_tx_filtering_enabled = false; large_contracts_enabled = false }
unfolding Freeze.batch_meta Normalize.batch_meta
meta_read y m e = elim (Bool-cases (y.pubdata_content == 0)) [
  | inr partial ↦ absurd (cc (rw partial at e))
  | inl full ↦ elim (Result-cases (Freeze.interop_proofs_of y.interop_proofs)) [
    | inr (f, r) ↦ absurd (cc (rw (full, r) at e))
    | inl (p, r) ↦ rw (← ok_inj (rw (full, r) at e)) (λ i. record y {
      tree_update =
          option-Undoes Normalize.batch_tree_update Freeze.batch_tree_update batch_tree_update_read
            y.tree_update i;
      pubdata_content = sym (==→eq _ _ full) i;
      l1_tx_filtering_enabled = false;
      large_contracts_enabled = false;
      interop_proofs = interop_proofs_read y.interop_proofs p r i;
    })
  ]
]

read_back :
    (y : BatchInput) (x : V3.BatchInput)
    → Freeze.batch_input y ≡ ok x
    → Normalize.batch_input x ≡ as_v3 y
unfolding Freeze.batch_input Normalize.batch_input
read_back y x e = elim (Bool-cases (ltb 2 y.spec_id)) [
  | inl above ↦ absurd (cc (rw above at e))
  | inr within ↦ elim (Result-cases (Freeze.batch_meta y.batch_meta)) [
    | inr (f, r) ↦ absurd (cc (rw (within, r) at e))
    | inl (m, r) ↦ rw (← ok_inj (rw (within, r) at e)) (λ i. record y {
      version = 3;
      blocks = map-Undoes Normalize.block_input Freeze.block_input block_input_read y.blocks i;
      batch_meta = meta_read y.batch_meta m r i;
    })
  ]
]

-- If the current form of a batch can be written as wire version 3, reading it again gives the batch
-- with version 3 and with the two flags that the version lacks off. So it gives the batch itself, under
-- version 3, just when neither flag is set: a flag that is set is dropped without an error.
pub normalize-freeze :
    (y : BatchInput) (x : V3.BatchInput)
    → Freeze.batch_input y ≡ ok x
    → (Normalize.batch_input x ≡ as_v3 y)
      × ((Normalize.batch_input x ≡ record y { version = 3 }) ↔ (
          (y.batch_meta.l1_tx_filtering_enabled ≡ false)
          × (y.batch_meta.large_contracts_enabled ≡ false)))
normalize-freeze y x e = (
  read_back y x e,
  (
    λ same.
        let p : record y { version = 3 } ≡ as_v3 y = sym same ∙ read_back y x e in
        (
          ap (λ (z : BatchInput). z.batch_meta.l1_tx_filtering_enabled) p,
          ap (λ (z : BatchInput). z.batch_meta.large_contracts_enabled) p,
        ),
    λ (filtering, large). read_back y x e ∙ (λ i. record y {
      version = 3;
      batch_meta = record y.batch_meta {
        l1_tx_filtering_enabled = sym filtering i;
        large_contracts_enabled = sym large i;
      };
    }),
  ),
)

-- The batches that the conversion to wire version 3 accepts. It does not look at the two flags that the
-- version lacks.
pub record IsAccepted (y : BatchInput) : Type 0 where
  pub released_spec : y.spec_id ≤ 2
  pub full_pubdata : y.batch_meta.pubdata_content ≡ 0
  pub no_commitment_tree :
      (p : InteropSlotProofs) → y.batch_meta.interop_proofs ≡ some p → p.commitment_tree ≡ none

interop_proofs_written_ok :
    (o : Option InteropSlotProofs)
    → ((p : InteropSlotProofs) → o ≡ some p → p.commitment_tree ≡ none)
    → (q : Option V3.InteropSlotProofs) × (Freeze.interop_proofs_of o ≡ ok q)
unfolding Freeze.interop_proofs_of Freeze.interop_slot_proofs
interop_proofs_written_ok none h = (none, refl)
interop_proofs_written_ok (some p) h = rw (h p refl) (_, refl)

tree_absent :
    (p : InteropSlotProofs) (q : Option V3.InteropSlotProofs)
    → Freeze.interop_proofs_of (some p) ≡ ok q
    → p.commitment_tree ≡ none
unfolding Freeze.interop_proofs_of Freeze.interop_slot_proofs
tree_absent p q e = elim (Option-cases p.commitment_tree) [
  | inl missing ↦ missing
  | inr (t, r) ↦ absurd (cc (rw r at e))
]

writable : (y : BatchInput) → ((x : V3.BatchInput) × (Freeze.batch_input y ≡ ok x)) ↔ IsAccepted y
unfolding Freeze.batch_input Freeze.batch_meta
writable y = (only, all)
  where
    only : (x : V3.BatchInput) × (Freeze.batch_input y ≡ ok x) → IsAccepted y
    only (x, e) = elim (Bool-cases (ltb 2 y.spec_id)) [
      | inl above ↦ absurd (cc (rw above at e))
      | inr within ↦ elim (Bool-cases (y.batch_meta.pubdata_content == 0)) [
        | inr partial ↦ absurd (cc (rw (within, partial) at e))
        | inl full ↦ elim (Result-cases (Freeze.interop_proofs_of y.batch_meta.interop_proofs)) [
          | inr (f, r) ↦ absurd (cc (rw (within, full, r) at e))
          | inl (q, r) ↦ record {
            released_spec = ltb→le _ _ within;
            full_pubdata = ==→eq _ _ full;
            no_commitment_tree = λ p h. tree_absent p q (rw h at r);
          }
        ]
      ]
    ]

    all : IsAccepted y → (x : V3.BatchInput) × (Freeze.batch_input y ≡ ok x)
    all h =
        let (q, r) = interop_proofs_written_ok y.batch_meta.interop_proofs h.no_commitment_tree in
        elim (Bool-cases (ltb 2 y.spec_id)) [
          | inl above ↦ absurd (omega (arith, ltb→lt _ _ above, h.released_spec))
          | inr within ↦ rw (within, h.full_pubdata, r) (_, refl)
        ]

-- The conversion to wire version 3 accepts a batch just when its spec is at most 2, it commits the full
-- pubdata and it has no proofs of the commitment tree, whatever the two flags are that the version
-- lacks. Any other batch gets the error of the first of these three that fails, with the spec or the
-- pubdata content that it has.
pub freeze_lem :
    (y : BatchInput)
    → (((x : V3.BatchInput) × (Freeze.batch_input y ≡ ok x)) ↔ IsAccepted y)
      × (2 < y.spec_id → Freeze.batch_input y ≡ err (unsupported_spec y.spec_id))
      × (y.spec_id ≤ 2
          → y.batch_meta.pubdata_content ≢ 0
          → Freeze.batch_input y ≡ err (unsupported_pubdata_content y.batch_meta.pubdata_content))
      × ((p : InteropSlotProofs) (t : InteropCommitmentTreeProofs)
          → y.spec_id ≤ 2
          → y.batch_meta.pubdata_content ≡ 0
          → y.batch_meta.interop_proofs ≡ some p
          → p.commitment_tree ≡ some t
          → Freeze.batch_input y ≡ err interop_commitment_tree)
unfolding Freeze.batch_input Freeze.batch_meta Freeze.interop_proofs_of Freeze.interop_slot_proofs
freeze_lem y = (
  writable y,
  λ late. let above : ltb 2 y.spec_id ≡ true = ground arith in rw above refl,
  λ early partial.
      let within : ltb 2 y.spec_id ≡ false = ground arith in
      let other : (y.batch_meta.pubdata_content == 0) ≡ false = ground arith in
      rw (within, other) refl,
  λ p t early full found tree.
      let within : ltb 2 y.spec_id ≡ false = ground arith in
      let same : (y.batch_meta.pubdata_content == 0) ≡ true = ground arith in
      rw (within, same, found, tree) refl,
)
