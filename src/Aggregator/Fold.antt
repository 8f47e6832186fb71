-- ===== src/Aggregator/Fold.antt =====
-- The frames that an aggregation takes in: one pair of keys, and the public inputs in order
-- (guest-aggregator/src/lib.rs, guest-aggregator/src/main.rs).
use zksync_os_zisk.Prelude.{
  ℕ, zero, suc, ◌+◌, ◌≡◌, refl, ap, sym, ◌∙◌, ◌↔◌, inl, inr, true, List, [], ◌∷◌, ◌++◌, map, ◌==◌,
  ==→eq, Bool-cases, some, length, All, Result, ok, err, guard-eq-ok, >>-eq-ok, >>=-eq-ok, ok_inj,
  ◌>>=◌, ◌>>◌, arith,
}
use mathlib.Core.List.{append_assoc, append-nil}
use zksync_os_zisk.Types.{Bytes}
use zksync_os_zisk.Aggregator.Layout.{parse-IsLaidOut}
use zksync_os_zisk.Aggregator.{
  Words, Slice, words_from_bytes, ProofFrame, parse, program_vk, vadcop_vk, commitment, same_words,
  Aggregator, new, check_vks, ingest_vks, ingest, AggError, program_vk_mismatch, vadcop_vk_mismatch,
  Machine, verification_failed, unwrap, take_proof, take_proofs,
}

same_words→eq : (xs ys : Words) → same_words xs ys ≡ true → xs ≡ ys
unfolding same_words
same_words→eq [] [] e = refl
same_words→eq [] (y ∷ ys) e = absurd (cc)
same_words→eq (x ∷ xs) [] e = absurd (cc)
same_words→eq (x ∷ xs) (y ∷ ys) e = elim (Bool-cases (x == y)) [
  | inl same ↦ λ i. ==→eq x y same i ∷ same_words→eq xs ys (rw same at e) i
  | inr other ↦ absurd (cc (rw other at e))
]

same_words_self : (xs : Words) → same_words xs xs ≡ true
unfolding same_words
same_words_self [] = refl
same_words_self (x ∷ xs) = ground (arith, same_words_self xs)

-- A frame of the given keys.
abbrev pub HasKeys : Words × Words → ProofFrame → Type 0
HasKeys (pvk, vvk) frame = (program_vk frame ≡ pvk) × (vadcop_vk frame ≡ vvk)

unfoldable pub ingest_all : Aggregator → List ProofFrame → Result AggError Aggregator
unfolding ingest
ingest_all a [] = ok a
ingest_all a (frame ∷ frames) = ingest a frame >>= λ a'. ingest_all a' frames

pub ingest_all-eq-ok :
    (a : Aggregator) (frame : ProofFrame) (frames : List ProofFrame) (c : Aggregator)
    → ingest_all a (frame ∷ frames) ≡ ok c
    → (b : Aggregator) × (ingest a frame ≡ ok b) × (ingest_all b frames ≡ ok c)
unfolding ingest_all
ingest_all-eq-ok a frame frames c e = >>=-eq-ok (ingest a frame) _ e

check_vks-HasKeys :
    (vks : Words × Words) (frame : ProofFrame) → check_vks vks frame ≡ ok tt → HasKeys vks frame
unfolding check_vks
check_vks-HasKeys (pvk, vvk) frame e =
    let (e₁, r₁) = guard-eq-ok (same_words (program_vk frame) pvk) program_vk_mismatch _ e in
    let (e₂, r₂) = guard-eq-ok (same_words (vadcop_vk frame) vvk) vadcop_vk_mismatch _ r₁ in
    (same_words→eq _ _ e₁, same_words→eq _ _ e₂)

check_vks_accepts :
    (vks : Words × Words) (frame : ProofFrame) → HasKeys vks frame → check_vks vks frame ≡ ok tt
unfolding check_vks
check_vks_accepts (pvk, vvk) frame (ep, ev) =
    rw (ep, ev, same_words_self pvk, same_words_self vvk) refl

-- An aggregation of these keys and public inputs.
abbrev pub holding : Words × Words → List Bytes → Aggregator
holding vks pis = record { vks = some vks; batch_public_inputs = pis }

ingest_more :
    (vks : Words × Words) (pis : List Bytes) (frame : ProofFrame) (a : Aggregator)
    → ingest (holding vks pis) frame ≡ ok a
    → HasKeys vks frame × (a ≡ holding vks (pis ++ commitment frame ∷ []))
unfolding ingest ingest_vks
ingest_more vks pis frame a e =
    let (vks', taken, out) = >>=-eq-ok (check_vks vks frame >> ok vks) _ e in
    let (checked, same) = >>-eq-ok (check_vks vks frame) (ok vks) taken in
    (
      check_vks-HasKeys vks frame checked,
      sym (ok_inj out) ∙ ap (λ k. holding k (pis ++ commitment frame ∷ [])) (sym (ok_inj same)),
    )

ingest_rest :
    (vks : Words × Words) (pis : List Bytes) (frames : List ProofFrame) (a : Aggregator)
    → ingest_all (holding vks pis) frames ≡ ok a
    → All (HasKeys vks) frames × (a ≡ holding vks (pis ++ map (λ f. commitment f) frames))
unfolding ingest_all
ingest_rest vks pis [] a e = (tt, sym (ok_inj e) ∙ ap (holding vks) (sym (append-nil pis)))
ingest_rest vks pis (frame ∷ frames) a e =
    let (a₁, first, more) = >>=-eq-ok (ingest (holding vks pis) frame) _ e in
    let (keys, out) = ingest_more vks pis frame a₁ first in
    let (all, end) =
      ingest_rest vks (pis ++ commitment frame ∷ []) frames a
        (ap (λ b. ingest_all b frames) (sym out) ∙ more) in
    (
      (keys, all),
      end
          ∙ ap (holding vks)
              (append_assoc pis (commitment frame ∷ []) (map (λ f. commitment f) frames)),
    )

ingest_rest_accepts :
    (vks : Words × Words) (pis : List Bytes) (frames : List ProofFrame)
    → All (HasKeys vks) frames
    → ingest_all (holding vks pis) frames ≡ ok (holding vks (pis ++ map (λ f. commitment f) frames))
unfolding ingest_all ingest ingest_vks
ingest_rest_accepts vks pis [] h = ap (λ l. ok (holding vks l)) (sym (append-nil pis))
ingest_rest_accepts vks pis (frame ∷ frames) (keys, h) = rw (check_vks_accepts vks frame keys) (
    ingest_rest_accepts vks (pis ++ commitment frame ∷ []) frames h
    ∙ ap (λ l. ok (holding vks l))
        (append_assoc pis (commitment frame ∷ []) (map (λ f. commitment f) frames)))

abbrev pub keys_of : ProofFrame → Words × Words
keys_of frame = (program_vk frame, vadcop_vk frame)

-- A new aggregation takes in a first frame and more frames exactly when these have the program key and
-- the vadcop key of the first; it then holds those keys and the commitments of all frames in order.
pub ingest_all_lem :
    (first : ProofFrame) (frames : List ProofFrame) (a : Aggregator)
    → (ingest_all new (first ∷ frames) ≡ ok a) ↔ (
        All (HasKeys (keys_of first)) frames
        × (a ≡ holding (keys_of first) (map (λ f. commitment f) (first ∷ frames))))
unfolding ingest_all ingest ingest_vks
ingest_all_lem first frames a = (
  λ e. ingest_rest (keys_of first) (commitment first ∷ []) frames a e,
  λ (keys, e).
      ingest_rest_accepts (keys_of first) (commitment first ∷ []) frames keys ∙ ap ok (sym e),
)

pub unwrap-eq-ok : {A : Type 0} (r : Result AggError A) {a : A} → unwrap r ≡ ok a → r ≡ ok a
unwrap-eq-ok (ok b) e = ap ok (ok_inj e)
unwrap-eq-ok (err p) e = absurd (cc)

module _ ⦃V : Machine⦄ where
  -- A slice holds the stream of this frame, which the machine verifies under the frame's keys.
  abbrev pub Accepted : Slice → ProofFrame → Type 0
  Accepted slice frame =
      (words_from_bytes slice ≡ ok frame.words)
      × (parse frame.words ≡ ok frame)
      × (V.verify_zisk_proof frame.words (vadcop_vk frame) (program_vk frame) ≡ true)

  -- The slices of the input from position `i` on hold these frames.
  abbrev pub AcceptedFrom : (ℕ → Slice) → ℕ → List ProofFrame → Type 0
  AcceptedFrom input i [] = Unit
  AcceptedFrom input i (frame ∷ frames) =
      Accepted (input i) frame × AcceptedFrom input (i + 1) frames

  take_proof-Accepted :
      (a : Aggregator) (slice : Slice) (a' : Aggregator)
      → take_proof a slice ≡ ok a'
      → (frame : ProofFrame) × Accepted slice frame × (ingest a frame ≡ ok a')
  unfolding take_proof
  take_proof-Accepted a slice a' e =
      let (words, e₁, r₁) = >>=-eq-ok (unwrap (words_from_bytes slice)) _ e in
      let (frame, e₂, r₂) = >>=-eq-ok (unwrap (parse words)) _ r₁ in
      let (b, e₃, r₃) = >>=-eq-ok (unwrap (ingest a frame)) _ r₂ in
      let (e₄, r₄) =
        guard-eq-ok (V.verify_zisk_proof frame.words (vadcop_vk frame) (program_vk frame))
          verification_failed (ok b) r₃ in
      let read = unwrap-eq-ok (words_from_bytes slice) e₁ in
      let parsed = unwrap-eq-ok (parse words) e₂ in
      let same = (parse-IsLaidOut words frame parsed).2 in
      (
        frame,
        (read ∙ ap ok (sym same), ap (λ w. parse w) same ∙ parsed, e₄),
        unwrap-eq-ok (ingest a frame) e₃ ∙ ap ok (ok_inj r₄),
      )

  pub take_proofs-Accepted :
      (input : ℕ → Slice) (n i : ℕ) (a a' : Aggregator)
      → take_proofs input n i a ≡ ok a'
      → (frames : List ProofFrame) × (length frames ≡ n)
        × AcceptedFrom input i frames
        × (ingest_all a frames ≡ ok a')
  unfolding take_proofs ingest_all
  take_proofs-Accepted input zero i a a' e = ([], refl, tt, ap ok (ok_inj e))
  take_proofs-Accepted input (suc n) i a a' e =
      let (b, first, more) = >>=-eq-ok (take_proof a (input i)) _ e in
      let (frame, accepted, taken) = take_proof-Accepted a (input i) b first in
      let (frames, size, all, rest) = take_proofs-Accepted input n (i + 1) b a' more in
      (frame ∷ frames, ap suc size, (accepted, all), rw (taken, ◌>>=◌) rest)
