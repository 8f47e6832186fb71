-- ===== src/Aggregator/Input.antt =====
-- The framed input of the aggregation guest: prover/src/aggregator_input.rs. A position is a usize of
-- 64 bits, and so is its sum with a length read from the input.
pub mod RoundTrip
pub mod Runs
use zksync_os_zisk.Prelude.{
  ℕ, zero, suc, ◌+◌, ◌-◌, ◌*◌, ◌/◌, ◌%◌, ◌^◌, Bool, true, false, not, List, [], ◌∷◌, ◌++◌, map,
  ◌==◌, ltb, leb, if◌then◌else◌, length, take, drop, replicate, concat, Result, ok, err, ◌>>=◌,
  ◌>>◌, guard,
}
use zksync_os_zisk.Prelude.Bytes.{le_bytes, from_le_bytes}
use zksync_os_zisk.Types.{Bytes}
use zksync_os_zisk.Aggregator.{Slice, words_from_bytes, parse, Aggregator, new, ingest, AggError}

-- `len.div_ceil(8) * 8`
abbrev pub padded : ℕ → ℕ
padded len = (len + 7) / 8 * 8

unfoldable pub encode_frame : Bytes → Bytes
unfolding le_bytes
encode_frame payload =
    le_bytes 8 (length payload)
    ++ (payload ++ replicate (padded (length payload) - length payload) 0)

pub data FrameError : Type 0 where
  truncated_prefix past_the_end slice_panic out_of_fuel : FrameError

-- The loop of `decode_frames` at position `pos`, with as many rounds at most as the fuel says.
unfoldable pub decode_loop : ℕ → Bytes → ℕ → Result FrameError (List Bytes)
unfolding from_le_bytes
decode_loop zero bytes pos = if ltb pos (length bytes) then err out_of_fuel else ok []
decode_loop (suc fuel) bytes pos =
    let len = from_le_bytes (take 8 (drop pos bytes)) in
    let start = pos + 8 in
    let rest = decode_loop fuel bytes (start + padded len) in
    let body : Result FrameError (List Bytes) = (do
      guard (leb start (length bytes)) truncated_prefix
      guard (leb ((start + len) % 2 ^ 64) (length bytes)) past_the_end
      guard (leb start ((start + len) % 2 ^ 64)) slice_panic
      frames ← rest
      ok (take len (drop start bytes) ∷ frames)) in
    if ltb pos (length bytes) then body else ok []

unfoldable pub decode_frames : Bytes → Result FrameError (List Bytes)
unfolding decode_loop
decode_frames bytes = decode_loop (length bytes) bytes 0

pub data AssembleError : Type 0 where
  no_streams : AssembleError
  invalid_proof : AggError → AssembleError

abbrev pub in_assembly {ℓ} : {A : Type ℓ} → Result AggError A → Result AssembleError A
in_assembly (ok a) = ok a
in_assembly (err e) = err (invalid_proof e)

-- The checks of `assemble` on its streams.
unfoldable pub check_streams : Aggregator → List Slice → Result AssembleError (Unit {0})
unfolding words_from_bytes parse ingest
check_streams a [] = ok tt
check_streams a (stream ∷ streams) = do
  words ← in_assembly (words_from_bytes stream)
  frame ← in_assembly (parse words)
  a' ← in_assembly (ingest a frame)
  check_streams a' streams

unfoldable pub assemble : List Slice → Result AssembleError Bytes
unfolding check_streams encode_frame le_bytes
assemble streams = do
  guard (not (length streams == 0)) no_streams
  check_streams new streams
  ok (
      encode_frame (le_bytes 8 (length streams))
      ++ concat (map (λ stream. encode_frame stream.bytes) streams))
