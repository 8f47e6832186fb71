-- ===== src/Aggregator/Input/RoundTrip.antt =====
-- What `decode_frames` of prover/src/aggregator_input.rs reads back from framed payloads.
use zksync_os_zisk.Prelude.{
  ℕ, zero, suc, ◌+◌, ◌-◌, ◌%◌, ◌^◌, ◌≤◌, ◌<◌, ◌≡◌, ◌≢◌, refl, ap, sym, ◌∙◌, true, false, not, List,
  [], ◌∷◌, ◌++◌, map, ◌==◌, ltb, leb, length, length-append, length-replicate, take, drop,
  replicate, concat, drop-drop, length-drop, take-append_exact, drop-append_exact, ok, guard-eq-ok,
  >>-eq-ok, ok_inj, arith,
}
use mathlib.Core.List.{append_assoc}
use zksync_os_zisk.Prelude.Bytes.{le_bytes, from_le_bytes, length-le_bytes, from_le-le_bytes}
use zksync_os_zisk.Types.{Bytes}
use zksync_os_zisk.Aggregator.{Slice, new}
use zksync_os_zisk.Aggregator.Input.{
  padded, encode_frame, decode_loop, decode_frames, check_streams, assemble, no_streams,
}

abbrev frames_of : List Bytes → Bytes
frames_of payloads = concat (map (λ p. encode_frame p) payloads)

length-encode_frame : (p : Bytes) → length (encode_frame p) ≡ 8 + padded (length p)
unfolding encode_frame
length-encode_frame p = omega (
  arith,
  length-append (le_bytes 8 (length p)) (p ++ replicate (padded (length p) - length p) 0),
  length-le_bytes 8 (length p),
  length-append p (replicate (padded (length p) - length p) 0),
  length-replicate {A = ℕ} (padded (length p) - length p) 0,
)

module _ (bytes : Bytes) (fits : length bytes < 2 ^ 63) where
  -- A frame at position `pos`, with more bytes behind it.
  module _ (pos : ℕ) (p more : Bytes) (here : drop pos bytes ≡ encode_frame p ++ more) where
    room : pos + (8 + padded (length p) + length more) ≡ length bytes
    room =
        let size : length (drop pos bytes) ≡ 8 + padded (length p) + length more =
          ap length here
          ∙ length-append (encode_frame p) more
          ∙ ap (λ (n : ℕ). n + length more) (length-encode_frame p) in
        omega (arith, length-drop pos bytes, size)

    shape :
        drop pos bytes
        ≡ le_bytes 8 (length p) ++ (p ++ (replicate (padded (length p) - length p) 0 ++ more))
    unfolding encode_frame
    shape =
        let pad = replicate (padded (length p) - length p) 0 in
        here
        ∙ append_assoc (le_bytes 8 (length p)) (p ++ pad) more
        ∙ ap (λ l. le_bytes 8 (length p) ++ l) (append_assoc p pad more)

    len_read : from_le_bytes (take 8 (drop pos bytes)) ≡ length p
    len_read =
        ap (λ l. from_le_bytes (take 8 l)) shape
        ∙ ap from_le_bytes
            (take-append_exact 8 (le_bytes 8 (length p)) _ (sym (length-le_bytes 8 (length p))))
        ∙ from_le-le_bytes 8 (length p) (omega (arith, room))

    payload_read : take (length p) (drop (pos + 8) bytes) ≡ p
    payload_read =
        ap (take (length p)) (
          sym (drop-drop 8 pos bytes)
          ∙ ap (drop 8) shape
          ∙ drop-append_exact 8 (le_bytes 8 (length p)) _ (sym (length-le_bytes 8 (length p))))
        ∙ take-append_exact (length p) p _ refl

    next : drop (pos + 8 + padded (length p)) bytes ≡ more
    next =
        ap (λ (n : ℕ). drop n bytes) (omega arith)
        ∙ sym (drop-drop (8 + padded (length p)) pos bytes)
        ∙ ap (drop (8 + padded (length p))) here
        ∙ drop-append_exact (8 + padded (length p)) (encode_frame p) more
            (sym (length-encode_frame p))

  decode_loop-frames :
      (fuel : ℕ) (payloads : List Bytes) (pos : ℕ)
      → drop pos bytes ≡ frames_of payloads
      → length bytes ≤ pos + fuel
      → decode_loop fuel bytes pos ≡ ok payloads
  unfolding decode_loop
  decode_loop-frames zero [] pos here enough = ground arith
  decode_loop-frames zero (p ∷ payloads) pos here enough =
      absurd (omega (arith, room pos p (frames_of payloads) here))
  decode_loop-frames (suc fuel) [] pos here enough =
      let done : ltb pos (length bytes) ≡ false =
        ground (arith, length-drop pos bytes, ap length here) in
      rw done refl
  decode_loop-frames (suc fuel) (p ∷ payloads) pos here enough =
      let more = frames_of payloads in
      let space = room pos p more here in
      let open_ : ltb pos (length bytes) ≡ true = ground (arith, space) in
      let prefix : leb (pos + 8) (length bytes) ≡ true = ground (arith, space) in
      let inside : leb ((pos + 8 + length p) % 2 ^ 64) (length bytes) ≡ true =
        ground (arith, space) in
      let order : leb (pos + 8) ((pos + 8 + length p) % 2 ^ 64) ≡ true = ground (arith, space) in
      let rest =
        decode_loop-frames fuel payloads (pos + 8 + padded (length p)) (next pos p more here)
          (omega arith) in
      rw
        (open_, len_read pos p more here, prefix, inside, order, rest, payload_read pos p more here)
        refl

-- Payloads framed one after another are read back by `decode_frames`, if all is shorter than 2 ^ 63
-- bytes.
pub decode_frames-encode_frame :
    (payloads : List Bytes)
    → length (concat (map (λ p. encode_frame p) payloads)) < 2 ^ 63
    → decode_frames (concat (map (λ p. encode_frame p) payloads)) ≡ ok payloads
unfolding decode_frames
decode_frames-encode_frame payloads fits =
    decode_loop-frames (frames_of payloads) fits (length (frames_of payloads)) payloads 0 refl
      (omega arith)

framed_streams :
    (streams : List Slice)
    → concat (map (λ stream. encode_frame stream.bytes) streams)
      ≡ frames_of (map (λ stream. stream.bytes) streams)
framed_streams [] = refl
framed_streams (s ∷ streams) = ap (λ l. encode_frame s.bytes ++ l) (framed_streams streams)

pub assemble-eq-ok :
    (streams : List Slice) (input : Bytes)
    → assemble streams ≡ ok input
    → (length streams ≢ 0)
      × (check_streams new streams ≡ ok tt)
      × (frames_of (le_bytes 8 (length streams) ∷ map (λ stream. stream.bytes) streams) ≡ input)
unfolding assemble
assemble-eq-ok streams input e =
    let (some_stream, r₁) = guard-eq-ok (not (length streams == 0)) no_streams _ e in
    let (checked, out) = >>-eq-ok (check_streams new streams) _ r₁ in
    (
      λ none. cc (rw none at some_stream),
      checked,
      ap (λ l. encode_frame (le_bytes 8 (length streams)) ++ l) (sym (framed_streams streams))
          ∙ ok_inj out,
    )
