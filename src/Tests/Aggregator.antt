-- ===== src/Tests/Aggregator.antt =====
-- An aggregation of two proof streams of full size, with a toy Keccak-256 and a verification that
-- accepts them.
use zksync_os_zisk.Prelude.{
  ℕ, zero, suc, ◌*◌, ◌^◌, ◌<◌, ◌≡◌, ◌↔◌, refl, ap, sym, ◌∙◌, true, List, [], ◌∷◌, ◌++◌, map, concat,
  replicate, length, length-append, length-replicate, take, All, take-append_exact,
  drop-append_exact, ok, ok_inj, arith,
}
use zksync_os_zisk.Prelude.Bytes.{
  be_bytes, le_bytes, from_le_bytes, length-le_bytes, from_le-le_bytes,
}
use zksync_os_zisk.Types.{Bytes}
use zksync_os_zisk.Commitment.Hash.{UnlessKeccakCollision}
use zksync_os_zisk.Aggregator.{
  Words, Slice, ProofFrame, Machine, le_words, words_from_bytes, parse, program_vk, vadcop_vk,
  publics, commitment, new, finalize, range_public_input, parse_count_frame, vk_bytes, guest_main,
}
use zksync_os_zisk.Aggregator.Layout.{
  stream, AreParts, IsLaidOut, parse-IsLaidOut, parse-stream, parse_accepts, length-stream,
}
use zksync_os_zisk.Aggregator.Fold.{
  HasKeys, keys_of, holding, ingest_all, ingest_all_lem, AcceptedFrom,
}
use zksync_os_zisk.Aggregator.Guest.{guest_main_lem}
use zksync_os_zisk.Aggregator.Binding.{OutputHashed, finalize_inj}
use zksync_os_zisk.Aggregator.Input.{encode_frame, decode_frames, assemble}
use zksync_os_zisk.Aggregator.Input.RoundTrip.{decode_frames-encode_frame}
use zksync_os_zisk.Aggregator.Input.Runs.{slices, Hold, assemble_accepts, guest_main-assemble}
use zksync_os_zisk.Tests.Toy.{toy_keccak, toy_hash}

-- The body of a proof, of which only the length counts here.
body : Words
body = replicate 46141 0

length-body : length body ≡ 46141
unfolding body
length-body = length-replicate {A = ℕ} 46141 0

abbrev pvk : Words
pvk = 1 ∷ 2 ∷ 3 ∷ 4 ∷ []

abbrev vvk : Words
vvk = 5 ∷ 6 ∷ 7 ∷ 8 ∷ []

-- A stream whose publics are all the given word.
abbrev words_of : ℕ → Words
words_of c = stream pvk (replicate 64 c) body vvk

parts : (c : ℕ) → AreParts pvk (replicate 64 c) body vvk
parts c = record { pvk_size = refl; pubs_size = refl; body_size = length-body; vvk_size = refl }

abbrev frame_of : ℕ → ProofFrame
frame_of c = record { words = words_of c }

parse-IsLaidOut_example : IsLaidOut (words_of 9) (frame_of 9)
parse-IsLaidOut_example =
    parse-IsLaidOut (words_of 9) (frame_of 9)
      (parse_accepts pvk (replicate 64 9) body vvk (parts 9))

parse-stream_example :
    (frame : ProofFrame) × (parse (words_of 9) ≡ ok frame)
    × (program_vk frame ≡ pvk)
    × (publics frame ≡ replicate 64 9)
    × (vadcop_vk frame ≡ vvk)
parse-stream_example = parse-stream pvk (replicate 64 9) body vvk (parts 9)

ingest_all_lem_example :
    (ingest_all new (frame_of 9 ∷ frame_of 10 ∷ [])
      ≡ ok (
          holding (keys_of (frame_of 9)) (commitment (frame_of 9) ∷ commitment (frame_of 10) ∷ [])))
    ↔ (All (HasKeys (keys_of (frame_of 9))) (frame_of 10 ∷ [])
        × (holding (keys_of (frame_of 9)) (commitment (frame_of 9) ∷ commitment (frame_of 10) ∷ [])
            ≡ holding
                (keys_of (frame_of 9))
                (map (λ f. commitment f) (frame_of 9 ∷ frame_of 10 ∷ []))))
ingest_all_lem_example =
    ingest_all_lem (frame_of 9) (frame_of 10 ∷ [])
      (holding (keys_of (frame_of 9)) (commitment (frame_of 9) ∷ commitment (frame_of 10) ∷ []))

abbrev pi : Bytes
pi = replicate 32 3

two_inputs_finalize :
    finalize (holding (pvk, vvk) (pi ∷ pi ∷ []))
    ≡ ok (
        be_bytes 32 (
          toy_hash 11 (
            vk_bytes pvk
            ++ (vk_bytes vvk
                ++ (replicate 4 0 ++ take 28 (be_bytes 32 (toy_hash 11 (pi ++ (pi ++ [])))))))))
unfolding finalize range_public_input toy_keccak
two_inputs_finalize = refl

finalize_inj_example : UnlessKeccakCollision (OutputHashed pvk vvk (pi ∷ pi ∷ [])) (
    (pvk ≡ pvk)
    × (vvk ≡ vvk)
    × (range_public_input (pi ∷ pi ∷ []) ≡ range_public_input (pi ∷ pi ∷ [])))
finalize_inj_example =
    finalize_inj pvk vvk pvk vvk (pi ∷ pi ∷ []) (pi ∷ pi ∷ [])
      (be_bytes 32 (
        toy_hash 11 (
          vk_bytes pvk
          ++ (vk_bytes vvk
              ++ (replicate 4 0 ++ take 28 (be_bytes 32 (toy_hash 11 (pi ++ (pi ++ [])))))))))
      (omega arith) (omega arith) (omega arith) (omega arith) two_inputs_finalize
      two_inputs_finalize

decode_frames-encode_frame_example :
    decode_frames (concat (map (λ p. encode_frame p) ((1 ∷ 2 ∷ []) ∷ [] ∷ replicate 9 7 ∷ [])))
    ≡ ok ((1 ∷ 2 ∷ []) ∷ [] ∷ replicate 9 7 ∷ [])
decode_frames-encode_frame_example =
    decode_frames-encode_frame ((1 ∷ 2 ∷ []) ∷ [] ∷ replicate 9 7 ∷ [])
      (unfold encode_frame in omega arith)

-- The little-endian bytes of a list of words are read back.
bytes_of_words : Words → Bytes
bytes_of_words ws = concat (map (λ w. le_bytes 8 w) ws)

le_words-bytes :
    (ws : Words) → All (λ w. w < 2 ^ 64) ws → le_words (length ws) (bytes_of_words ws) ≡ ws
unfolding le_words bytes_of_words
le_words-bytes [] h = refl
le_words-bytes (w ∷ ws) (hw, h) =
    let cut = sym (length-le_bytes 8 w) in
    (λ i.
      (ap from_le_bytes (take-append_exact 8 (le_bytes 8 w) (bytes_of_words ws) cut)
          ∙ from_le-le_bytes 8 w hw)
        i
      ∷ (ap (le_words (length ws)) (drop-append_exact 8 (le_bytes 8 w) (bytes_of_words ws) cut)
            ∙ le_words-bytes ws h)
          i)

length-bytes_of_words : (ws : Words) → length (bytes_of_words ws) ≡ length ws * 8
unfolding bytes_of_words
length-bytes_of_words [] = refl
length-bytes_of_words (w ∷ ws) = omega (
  arith,
  length-append (le_bytes 8 w) (bytes_of_words ws),
  length-le_bytes 8 w,
  length-bytes_of_words ws,
)

abbrev Word : ℕ → Type 0
Word w = w < 2 ^ 64

All-append : (xs ys : Words) → All Word xs → All Word ys → All Word (xs ++ ys)
All-append [] ys hx hy = hy
All-append (x ∷ xs) ys (b, hx) hy = (b, All-append xs ys hx hy)

All-replicate : (n w : ℕ) → Word w → All Word (replicate n w)
All-replicate zero w h = tt
All-replicate (suc n) w h = (h, All-replicate n w h)

body_fits : All Word body
unfolding body
body_fits = All-replicate 46141 0 (omega arith)

words_fit : (c : ℕ) → Word c → All Word (words_of c)
unfolding stream
words_fit c h =
    let rest =
      All-append (replicate 64 c) (body ++ (vvk ++ 0 ∷ [])) (All-replicate 64 c h)
        (All-append body (vvk ++ 0 ∷ []) body_fits (omega arith)) in
    (
      small 0 (omega arith),
      (
        small 69 (omega arith),
        (
          small 1 (omega arith),
          (
            small 1 (omega arith),
            (small 2 (omega arith), (small 3 (omega arith), (small 4 (omega arith), rest))),
          ),
        ),
      ),
    )
  where
    small : (n : ℕ) → n < 2 ^ 64 → Word n
    small n h = h

abbrev slice_of : ℕ → Slice
slice_of c = record { aligned = true; bytes = bytes_of_words (words_of c) }

slice_read : (c : ℕ) → Word c → words_from_bytes (slice_of c) ≡ ok (words_of c)
unfolding words_from_bytes
slice_read c h =
    let words = stream pvk (replicate 64 c) body vvk in
    let count = length-stream pvk (replicate 64 c) body vvk (parts c) in
    let size : length (bytes_of_words (words_of c)) ≡ 369736 =
      length-bytes_of_words words ∙ ap (λ (n : ℕ). n * 8) count in
    rw size (
      ap ok (
        ap (λ (n : ℕ). le_words n (bytes_of_words words)) (sym count)
        ∙ le_words-bytes words (words_fit c h)))

-- The keys of a frame of `words_of`.
frame_keys : (c : ℕ) → keys_of (frame_of c) ≡ (pvk, vvk)
frame_keys c =
    let (frame, ran, p, q, v) = parse-stream pvk (replicate 64 c) body vvk (parts c) in
    let same = ok_inj (sym ran ∙ parse_accepts pvk (replicate 64 c) body vvk (parts c)) in
    λ i. ((ap program_vk (sym same) ∙ p) i, (ap vadcop_vk (sym same) ∙ v) i)

abbrev two_streams : List Slice
two_streams = slice_of 9 ∷ slice_of 10 ∷ []

same_keys : HasKeys (keys_of (frame_of 9)) (frame_of 10)
same_keys =
    let k = frame_keys 10 ∙ sym (frame_keys 9) in
    (ap (λ (k : Words × Words). k.0) k, ap (λ (k : Words × Words). k.1) k)

two_streams-Hold : Hold two_streams (frame_of 9 ∷ frame_of 10 ∷ [])
two_streams-Hold = (
  slice_read 9 (omega arith),
  parse_accepts pvk (replicate 64 9) body vvk (parts 9),
  (slice_read 10 (omega arith), parse_accepts pvk (replicate 64 10) body vvk (parts 10), tt),
)

two_assembled : (input : Bytes) × (assemble two_streams ≡ ok input)
two_assembled =
    assemble_accepts two_streams (frame_of 9) (frame_of 10 ∷ []) two_streams-Hold (same_keys, tt)

-- A machine that accepts every proof.
instance accepting : Machine
accepting = record { verify_zisk_proof = λ words vadcop program. true }

two_run : (out : Bytes) × (guest_main (slices two_streams) ≡ ok out)
unfolding accepting
two_run =
    guest_main-assemble two_streams two_assembled.0 two_assembled.1 (omega arith)
      ((λ frame read parsed. refl), ((λ frame read parsed. refl), tt))

guest_main-assemble_example : (out : Bytes) × (guest_main (slices two_streams) ≡ ok out)
unfolding accepting
guest_main-assemble_example =
    guest_main-assemble two_streams two_assembled.0 two_assembled.1 (omega arith)
      ((λ frame read parsed. refl), ((λ frame read parsed. refl), tt))

guest_main_lem_example :
    (first : ProofFrame) × (rest : List ProofFrame) × (parse_count_frame
        (slices two_streams 0).bytes
      ≡ ok (suc (length rest)))
    × AcceptedFrom (slices two_streams) 1 (first ∷ rest)
    × All (HasKeys (program_vk first, vadcop_vk first)) rest
    × (range : Bytes) × (range_public_input (map (λ f. commitment f) (first ∷ rest)) ≡ ok range)
    × (two_run.0
        ≡ be_bytes 32
            (toy_hash 11 (vk_bytes (program_vk first) ++ (vk_bytes (vadcop_vk first) ++ range))))
unfolding toy_keccak
guest_main_lem_example = guest_main_lem (slices two_streams) two_run.0 two_run.1
