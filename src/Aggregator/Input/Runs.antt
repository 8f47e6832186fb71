-- ===== src/Aggregator/Input/Runs.antt =====
-- The guest of guest-aggregator/src/main.rs on the input of prover/src/aggregator_input.rs.
use zksync_os_zisk.Prelude.{
  ℕ, zero, suc, ◌+◌, ◌^◌, ◌<◌, ◌≡◌, ◌≢◌, refl, ap, sym, ◌∙◌, subst, true, not, List, [], ◌∷◌, ◌++◌,
  map, ◌==◌, concat, All, length, get_or, Result, ok, err, >>=-eq-ok, ok_inj, ◌>>=◌, arith,
}
use zksync_os_zisk.Prelude.Bytes.{be_bytes, le_bytes, length-le_bytes, from_le-le_bytes}
use zksync_os_zisk.Types.{Bytes}
use zksync_os_zisk.Commitment.Hash.{Keccak}
use zksync_os_zisk.Aggregator.{
  Words, Slice, words_from_bytes, ProofFrame, parse, program_vk, vadcop_vk, commitment, Aggregator,
  new, ingest, AggError, Machine, take_proof, take_proofs, parse_count_frame, guest_main, finalize,
  range_public_input, vk_bytes,
}
use zksync_os_zisk.Aggregator.Layout.{parse-IsLaidOut}
use zksync_os_zisk.Aggregator.Fold.{
  HasKeys, keys_of, holding, ingest_all-eq-ok, ingest_all, ingest_all_lem, take_proofs-Accepted,
}
use zksync_os_zisk.Aggregator.Input.{encode_frame, in_assembly, check_streams, assemble}
use zksync_os_zisk.Aggregator.Input.RoundTrip.{assemble-eq-ok}

-- The slices that the guest reads: the count frame, then the streams.
abbrev pub slices : List Slice → ℕ → Slice
slices streams zero = record { aligned = true; bytes = le_bytes 8 (length streams) }
slices streams (suc i) = get_or streams i (record { aligned = true; bytes = [] })

-- The slices of the input from position `i` on are these.
Fed : (ℕ → Slice) → ℕ → List Slice → Type 0
Fed input i [] = Unit
Fed input i (s ∷ streams) = (input i ≡ s) × Fed input (i + 1) streams

slices-Fed :
    (streams all : List Slice) (i : ℕ)
    → ((j : ℕ)
        → get_or all (i + j) (record { aligned = true; bytes = [] })
          ≡ get_or streams j (record { aligned = true; bytes = [] }))
    → Fed (slices all) (suc i) streams
unfolding Fed
slices-Fed [] all i h = tt
slices-Fed (s ∷ streams) all i h = (
  ap (λ (k : ℕ). get_or all k (record { aligned = true; bytes = [] })) (plus_zero i) ∙ h 0,
  subst (λ (k : ℕ). Fed (slices all) k streams) (plus_one i)
      (slices-Fed streams all (i + 1) λ j.
        ap (λ (k : ℕ). get_or all k (record { aligned = true; bytes = [] })) (shift i j)
        ∙ h (suc j)),
)
  where
    plus_zero : (i : ℕ) → i ≡ i + 0
    plus_zero i = omega arith

    plus_one : (i : ℕ) → suc (i + 1) ≡ suc i + 1
    plus_one i = omega arith

    shift : (i j : ℕ) → i + 1 + j ≡ i + suc j
    shift i j = omega arith

in_assembly-eq-ok : {A : Type 0} (r : Result AggError A) {a : A} → in_assembly r ≡ ok a → r ≡ ok a
in_assembly-eq-ok (ok b) e = ap ok (ok_inj e)
in_assembly-eq-ok (err p) e = absurd (cc)

-- The slices hold these frames.
abbrev pub Hold : List Slice → List ProofFrame → Type 0
Hold [] [] = Unit
Hold [] (frame ∷ frames) = ⊥
Hold (s ∷ streams) [] = ⊥
Hold (s ∷ streams) (frame ∷ frames) =
    (words_from_bytes s ≡ ok frame.words) × (parse frame.words ≡ ok frame) × Hold streams frames

check_one :
    (s : Slice) (streams : List Slice) (words : Words) (frame : ProofFrame) (a b : Aggregator)
    → words_from_bytes s ≡ ok words
    → parse words ≡ ok frame
    → ingest a frame ≡ ok b
    → check_streams b streams ≡ ok tt
    → check_streams a (s ∷ streams) ≡ ok tt
unfolding check_streams
check_one s streams words frame a b read parsed taken rest = rw (read, parsed, taken) rest

check_streams_accepts :
    (streams : List Slice) (frames : List ProofFrame) (a a' : Aggregator)
    → Hold streams frames
    → ingest_all a frames ≡ ok a'
    → check_streams a streams ≡ ok tt
check_streams_accepts [] [] a a' h e = unfold check_streams in refl
check_streams_accepts [] (frame ∷ frames) a a' h e = absurd h
check_streams_accepts (s ∷ streams) [] a a' h e = absurd h
check_streams_accepts (s ∷ streams) (frame ∷ frames) a a' (read, parsed, h) e =
    let (b, taken, rest) = ingest_all-eq-ok a frame frames a' e in
    check_one s streams frame.words frame a b read parsed taken
      (check_streams_accepts streams frames b a' h rest)

-- `assemble` accepts streams that hold frames with the keys of the first.
pub assemble_accepts :
    (streams : List Slice) (first : ProofFrame) (frames : List ProofFrame)
    → Hold streams (first ∷ frames)
    → All (HasKeys (keys_of first)) frames
    → (input : Bytes) × (assemble streams ≡ ok input)
unfolding assemble
assemble_accepts [] first frames h keys = absurd h
assemble_accepts (s ∷ streams) first frames h keys =
    let a = holding (keys_of first) (map (λ f. commitment f) (first ∷ frames)) in
    let taken = (ingest_all_lem first frames a).1 (keys, refl) in
    let checked = check_streams_accepts (s ∷ streams) (first ∷ frames) new a h taken in
    (
      encode_frame (le_bytes 8 (length (s ∷ streams)))
          ++ concat (map (λ stream. encode_frame stream.bytes) (s ∷ streams)),
      rw (assembled (length streams), checked) refl,
    )
  where
    assembled : (n : ℕ) → not (suc n == 0) ≡ true
    assembled n = ground arith

count_read : (n : ℕ) → n ≢ 0 → n < 2 ^ 64 → parse_count_frame (le_bytes 8 n) ≡ ok n
unfolding parse_count_frame
count_read n positive fits =
    let some_n : not (n == 0) ≡ true = ground arith in
    rw (length-le_bytes 8 n, from_le-le_bytes 8 n fits, some_n) refl

module _ ⦃V : Machine⦄ where
  -- The in-guest verification accepts the frame that the slice holds.
  abbrev pub Verifies : Slice → Type 0
  Verifies slice =
      (frame : ProofFrame)
      → words_from_bytes slice ≡ ok frame.words
      → parse frame.words ≡ ok frame
      → V.verify_zisk_proof frame.words (vadcop_vk frame) (program_vk frame) ≡ true

  abbrev pub AllVerify : List Slice → Type 0
  AllVerify [] = Unit
  AllVerify (s ∷ streams) = Verifies s × AllVerify streams

  take_proof_runs :
      (input : ℕ → Slice) (n i : ℕ) (s : Slice) (words : Words) (frame : ProofFrame)
      (a b a' : Aggregator)
      → input i ≡ s
      → words_from_bytes s ≡ ok words
      → parse words ≡ ok frame
      → ingest a frame ≡ ok b
      → V.verify_zisk_proof frame.words (vadcop_vk frame) (program_vk frame) ≡ true
      → take_proofs input n (i + 1) b ≡ ok a'
      → take_proofs input (suc n) i a ≡ ok a'
  unfolding take_proofs take_proof
  take_proof_runs input n i s words frame a b a' here read parsed ingested verified rest =
      rw (here, read, parsed, ingested, verified) rest

  check_runs :
      (input : ℕ → Slice) (streams : List Slice) (i : ℕ) (a : Aggregator)
      → Fed input i streams
      → AllVerify streams
      → check_streams a streams ≡ ok tt
      → (a' : Aggregator) × (take_proofs input (length streams) i a ≡ ok a')
  unfolding Fed check_streams take_proofs
  check_runs input [] i a fed all e = (a, refl)
  check_runs input (s ∷ streams) i a (here, fed) (verifies, all) e =
      let (words, e₁, r₁) = >>=-eq-ok (in_assembly (words_from_bytes s)) _ e in
      let (frame, e₂, r₂) = >>=-eq-ok (in_assembly (parse words)) _ r₁ in
      let (b, e₃, r₃) = >>=-eq-ok (in_assembly (ingest a frame)) _ r₂ in
      let read = in_assembly-eq-ok (words_from_bytes s) e₁ in
      let parsed = in_assembly-eq-ok (parse words) e₂ in
      let same = (parse-IsLaidOut words frame parsed).2 in
      let verified = verifies frame (read ∙ ap ok (sym same)) (ap (λ w. parse w) same ∙ parsed) in
      let (a', rest) = check_runs input streams (i + 1) b fed all r₃ in
      (
        a',
        take_proof_runs input (length streams) i s words frame a b a' here read parsed
            (in_assembly-eq-ok (ingest a frame) e₃) verified rest,
      )

  range_found :
      ⦃K : Keccak⦄ (p : Bytes) (pis : List Bytes)
      → (range : Bytes) × (range_public_input (p ∷ pis) ≡ ok range)
  unfolding range_public_input
  range_found p [] = (_, refl)
  range_found p (q ∷ pis) = (_, refl)

  finalize_total :
      ⦃K : Keccak⦄ (keys : Words × Words) (p : Bytes) (pis : List Bytes)
      → (out : Bytes) × (finalize (holding keys (p ∷ pis)) ≡ ok out)
  unfolding finalize
  finalize_total ⦃K = K⦄ keys p pis =
      let (range, found) = range_found p pis in
      (
        be_bytes 32 (K.keccak256 (vk_bytes keys.0 ++ (vk_bytes keys.1 ++ range))),
        rw (found, ◌>>=◌) refl,
      )

  finalize_ingested :
      ⦃K : Keccak⦄ (frames : List ProofFrame) (a : Aggregator)
      → length frames ≢ 0
      → ingest_all new frames ≡ ok a
      → (out : Bytes) × (finalize a ≡ ok out)
  finalize_ingested [] a positive e = absurd (positive refl)
  finalize_ingested (first ∷ frames) a positive e =
      let (keys, held) = (ingest_all_lem first frames a).0 e in
      let (out, done) =
        finalize_total (keys_of first) (commitment first) (map (λ f. commitment f) frames) in
      (out, ap (λ b. finalize b) held ∙ done)

  -- On streams that `assemble` accepts, fewer than 2 ^ 64 of them, and that the in-guest verification
  -- accepts, the guest commits an output when it reads the count and the streams.
  pub guest_main-assemble :
      ⦃K : Keccak⦄ (streams : List Slice) (input : Bytes)
      → assemble streams ≡ ok input
      → length streams < 2 ^ 64
      → AllVerify streams
      → (out : Bytes) × (guest_main (slices streams) ≡ ok out)
  unfolding guest_main
  guest_main-assemble streams input e fits all =
      let (positive, checked, same) = assemble-eq-ok streams input e in
      let (a, taken) =
        check_runs (slices streams) streams 1 new (slices-Fed streams streams 0 λ j. zero_plus j)
          all checked in
      let (frames, size, accepted, ingested) =
        take_proofs-Accepted (slices streams) (length streams) 1 new a taken in
      let (out, done) = finalize_ingested frames a (λ z. positive (sym size ∙ z)) ingested in
      (out, rw (count_read (length streams) positive fits, taken) (rw done refl))
    where
      zero_plus :
          (j : ℕ)
          → get_or streams (0 + j) (record { aligned = true; bytes = [] })
            ≡ get_or streams j (record { aligned = true; bytes = [] })
      zero_plus j =
          ap (λ (k : ℕ). get_or streams k (record { aligned = true; bytes = [] })) (omega arith)
