-- ===== src/Wire/Decode.antt =====
-- `decode_batch_input` of lib/src/wire.rs. The decoders of the `bincode` crate are a parameter: one for
-- each type that the source decodes. The text of an error is left out.
use zksync_os_zisk.Prelude.{
  ℕ, ◌≡◌, ◌≢◌, refl, ap, sym, false, ◌∙◌, subst, ◌⊎◌, inl, inr, Bool-cases, ◌==◌, ==→eq,
  if◌then◌else◌, Result, ok, err, ◌>>=◌, Result-cases, ok_inj, arith,
}
use zksync_os_zisk.Types
use zksync_os_zisk.Types.{Bytes}
use zksync_os_zisk.Wire.V3
use zksync_os_zisk.Wire.V3.Normalize
use zksync_os_zisk.Wire.V5

-- The uses of `bincode::serde::decode_from_slice`.
pub record Bincode : Type 1 where
  pub DecodeError : Type 0
  pub decode_u32 : Bytes → Result DecodeError ℕ
  pub decode_v3 : Bytes → Result DecodeError V3.BatchInput
  pub decode_v5 : Bytes → Result DecodeError V5.BatchInput
  pub decode_current : Bytes → Result DecodeError Types.BatchInput

-- The encoding of a struct starts with its first field, and every one of the three has its version
-- there.
pub record IsPositional (B : Bincode) : Type 0 where
  pub first_v3 :
      (bytes : Bytes) (x : V3.BatchInput)
      → B.decode_v3 bytes ≡ ok x
      → B.decode_u32 bytes ≡ ok x.version
  pub first_v5 :
      (bytes : Bytes) (x : V5.BatchInput)
      → B.decode_v5 bytes ≡ ok x
      → B.decode_u32 bytes ≡ ok x.version
  pub first_current :
      (bytes : Bytes) (x : Types.BatchInput)
      → B.decode_current bytes ≡ ok x
      → B.decode_u32 bytes ≡ ok x.version

module _ ⦃B : Bincode⦄ where
  pub data DecodeFailure : Type 0 where
    read_version : B.DecodeError → DecodeFailure
    deserialize : (wire_version : ℕ) → B.DecodeError → DecodeFailure
    unsupported_version : ℕ → DecodeFailure

  abbrev pub map_result :
      {A C : Type 0}
      → (A → C)
      → (B.DecodeError → DecodeFailure)
      → Result B.DecodeError A
      → Result DecodeFailure C
  map_result f g (ok a) = ok (f a)
  map_result f g (err e) = err (g e)

  unfoldable pub decode_batch_input : Bytes → Result DecodeFailure Types.BatchInput
  decode_batch_input bytes = do
    version ← map_result (λ v. v) read_version (B.decode_u32 bytes)
    (if version == 3
        then map_result Normalize.batch_input (deserialize 3) (B.decode_v3 bytes)
        else if version == 5
        then map_result V5.batch_input (deserialize 5) (B.decode_v5 bytes)
        else if version == 6
        then map_result (λ x. x) (deserialize 6) (B.decode_current bytes)
        else err (unsupported_version version))

  abbrev pub IsSupported : ℕ → Type 0
  IsSupported v = (v ≡ 3) ⊎ ((v ≡ 5) ⊎ (v ≡ 6))

  map_result-ok :
      {A C : Type 0} (f : A → C) (g : B.DecodeError → DecodeFailure) (r : Result B.DecodeError A)
      (c : C)
      → map_result f g r ≡ ok c
      → (a : A) × (r ≡ ok a) × (f a ≡ c)
  map_result-ok f g (ok a) c e = (a, refl, ok_inj e)
  map_result-ok f g (err x) c e = absurd (cc)

  -- What is known of a decoded batch.
  pub record IsNormalized (bytes : Bytes) (x : Types.BatchInput) : Type 0 where
    pub leading : B.decode_u32 bytes ≡ ok x.version
    pub supported : IsSupported x.version
    pub v3_full : x.version ≡ 3 → x.batch_meta.pubdata_content ≡ 0
    pub old_no_filtering : x.version ≢ 6 → x.batch_meta.l1_tx_filtering_enabled ≡ false
    pub old_no_large : x.version ≢ 6 → x.batch_meta.large_contracts_enabled ≡ false

  v3-IsNormalized :
      (bytes : Bytes) (y : V3.BatchInput)
      → B.decode_u32 bytes ≡ ok y.version
      → y.version ≡ 3
      → IsNormalized bytes (Normalize.batch_input y)
  unfolding Normalize.batch_input Normalize.batch_meta
  v3-IsNormalized bytes y lead v = record {
    leading = lead;
    supported = inl v;
    v3_full = λ e. refl;
    old_no_filtering = λ ne. refl;
    old_no_large = λ ne. refl;
  }

  v5-IsNormalized :
      (bytes : Bytes) (y : V5.BatchInput)
      → B.decode_u32 bytes ≡ ok y.version
      → y.version ≡ 5
      → IsNormalized bytes (V5.batch_input y)
  unfolding V5.batch_input V5.batch_meta
  v5-IsNormalized bytes y lead v = record {
    leading = lead;
    supported = inr (inl v);
    v3_full = λ e. absurd (omega arith);
    old_no_filtering = λ ne. refl;
    old_no_large = λ ne. refl;
  }

  -- A decoded batch has the version that its bytes start with, and it is 3, 5 or 6, with a decoder
  -- that reads the fields of a struct in order. A batch of version 3 commits the full pubdata, and one
  -- of version 3 or 5 has neither of the two flags that came with version 6.
  pub decode_batch_input_lem :
      (bytes : Bytes) (x : Types.BatchInput)
      → IsPositional B
      → decode_batch_input bytes ≡ ok x
      → IsNormalized bytes x
  unfolding decode_batch_input
  decode_batch_input_lem bytes x pos e = elim (Result-cases (B.decode_u32 bytes)) [
    | inr (f, r) ↦ absurd (cc (rw r at e))
    | inl (v, r) ↦ elim (Bool-cases (v == 3)) [
      | inl three ↦
          let (y, q, ey) =
            map_result-ok Normalize.batch_input (deserialize 3) _ x (rw (r, three) at e) in
          let lead = pos.first_v3 bytes y q in
          subst (λ z. IsNormalized bytes z) ey
            (v3-IsNormalized bytes y lead (ok_inj (sym lead ∙ r) ∙ ==→eq _ _ three))
      | inr not_three ↦ elim (Bool-cases (v == 5)) [
        | inl five ↦
            let (y, q, ey) =
              map_result-ok V5.batch_input (deserialize 5) _ x (rw (r, not_three, five) at e) in
            let lead = pos.first_v5 bytes y q in
            subst (λ z. IsNormalized bytes z) ey
              (v5-IsNormalized bytes y lead (ok_inj (sym lead ∙ r) ∙ ==→eq _ _ five))
        | inr not_five ↦ elim (Bool-cases (v == 6)) [
          | inr other ↦ absurd (cc (rw (r, not_three, not_five, other) at e))
          | inl six ↦
              let (y, q, ey) =
                map_result-ok (λ z. z) (deserialize 6) _ x
                  (rw (r, not_three, not_five, six) at e) in
              let lead = pos.first_current bytes x (q ∙ ap ok ey) in
              let version : x.version ≡ 6 = ok_inj (sym lead ∙ r) ∙ ==→eq _ _ six in
              record {
                leading = lead;
                supported = inr (inr version);
                v3_full = λ h. absurd (omega arith);
                old_no_filtering = λ ne. absurd (ne version);
                old_no_large = λ ne. absurd (ne version);
              }
        ]
      ]
    ]
  ]
