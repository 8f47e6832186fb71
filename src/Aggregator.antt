-- ===== src/Aggregator.antt =====
-- The aggregation guest: guest-aggregator/src/lib.rs and the loop of guest-aggregator/src/main.rs. A
-- slice of the input comes with the alignment of its address. The verification of a proof in the guest
-- is the machine's, and a parameter.
pub mod Layout
pub mod Fold
pub mod Guest
pub mod Binding
pub mod Input
use zksync_os_zisk.Prelude.{
  ℕ, zero, suc, ◌+◌, ◌-◌, ◌*◌, ◌/◌, ◌%◌, ◌^◌, Bool, true, false, not, ◌&&◌, ◌||◌, List, [], ◌∷◌,
  ◌++◌, map, ◌==◌, if◌then◌else◌, Option, none, some, length, get_or, take, drop, replicate, concat,
  Result, ok, err, ◌>>=◌, ◌>>◌, guard, from_option,
}
use zksync_os_zisk.Prelude.Bytes.{be_bytes, le_bytes, from_le_bytes}
use zksync_os_zisk.Types.{Bytes}
use zksync_os_zisk.Commitment.Hash.{Keccak}

abbrev pub Words : Type 0
Words = List ℕ

abbrev pub header_words : ℕ
header_words = 2

abbrev pub program_vk_words : ℕ
program_vk_words = 4

abbrev pub publics_words : ℕ
publics_words = 64

abbrev pub vadcop_vk_words : ℕ
vadcop_vk_words = 4

abbrev pub hash_tag_words : ℕ
hash_tag_words = 1

abbrev pub expected_hash_tag : ℕ
expected_hash_tag = 0

abbrev pub commitment_words : ℕ
commitment_words = 8

abbrev pub leaf_flag_words : ℕ
leaf_flag_words = 1

abbrev pub is_vadcop_final_proof : ℕ
is_vadcop_final_proof = 1

abbrev pub expected_n_publics : ℕ
expected_n_publics = leaf_flag_words + program_vk_words + publics_words

abbrev pub vadcop_final_body_words : ℕ
vadcop_final_body_words = 46141

abbrev pub proof_stream_words : ℕ
proof_stream_words =
    header_words + leaf_flag_words + program_vk_words + publics_words + vadcop_final_body_words
    + vadcop_vk_words + hash_tag_words

pub data AggError : Type 0 where
  misaligned no_proofs program_vk_mismatch vadcop_vk_mismatch : AggError
  bad_count_frame wrong_length minimal_proof bad_publics_count : ℕ → AggError
  bad_hash_tag not_a_leaf_proof : ℕ → AggError

unfoldable pub parse_count_frame : Bytes → Result AggError ℕ
unfolding from_le_bytes
parse_count_frame bytes = do
  guard (length bytes == 8) (bad_count_frame (length bytes))
  guard (not (from_le_bytes bytes == 0)) no_proofs
  ok (from_le_bytes bytes)

-- A byte slice, and whether its address is a multiple of eight.
pub record Slice : Type 0 where
  pub aligned : Bool
  pub bytes : Bytes

-- The first `n` little-endian words.
unfoldable pub le_words : ℕ → Bytes → Words
le_words zero bytes = []
le_words (suc n) bytes = from_le_bytes (take 8 bytes) ∷ le_words n (drop 8 bytes)

-- The empty slice has neither prefix nor suffix at any address.
unfoldable pub words_from_bytes : Slice → Result AggError Words
unfolding le_words
words_from_bytes slice = do
  guard (length slice.bytes == 0 || (slice.aligned && length slice.bytes % 8 == 0)) misaligned
  ok (le_words (length slice.bytes / 8) slice.bytes)

pub record ProofFrame : Type 0 where
  pub words : Words

unfoldable pub parse : Words → Result AggError ProofFrame
parse words = do
  guard (length words == proof_stream_words) (wrong_length (length words))
  guard (get_or words 0 0 == 0) (minimal_proof (get_or words 0 0))
  guard (get_or words 1 0 == expected_n_publics) (bad_publics_count (get_or words 1 0))
  guard (get_or words (proof_stream_words - hash_tag_words) 0 == expected_hash_tag)
      (bad_hash_tag (get_or words (proof_stream_words - hash_tag_words) 0))
  guard (get_or words header_words 0 == is_vadcop_final_proof)
      (not_a_leaf_proof (get_or words header_words 0))
  ok (record { words = words })

unfoldable pub program_vk : ProofFrame → Words
program_vk frame = take program_vk_words (drop (header_words + leaf_flag_words) frame.words)

unfoldable pub vadcop_vk : ProofFrame → Words
vadcop_vk frame =
    take vadcop_vk_words (drop (length frame.words - hash_tag_words - vadcop_vk_words) frame.words)

unfoldable pub publics : ProofFrame → Words
publics frame =
    take publics_words (drop (header_words + leaf_flag_words + program_vk_words) frame.words)

unfoldable pub commitment : ProofFrame → Bytes
unfolding publics le_bytes
commitment frame =
    concat (map (λ w. le_bytes 4 (w % 2 ^ 32)) (take commitment_words (publics frame)))

unfoldable pub shr32 : Bytes → Bytes
shr32 word = replicate 4 0 ++ take 28 word

-- Equality of slices of words.
unfoldable pub same_words : Words → Words → Bool
same_words [] [] = true
same_words [] (y ∷ ys) = false
same_words (x ∷ xs) [] = false
same_words (x ∷ xs) (y ∷ ys) = let rest = same_words xs ys in if x == y then rest else false

pub record Aggregator : Type 0 where
  pub vks : Option (Words × Words)
  pub batch_public_inputs : List Bytes

abbrev pub new : Aggregator
new = record { vks = none; batch_public_inputs = [] }

-- The keys of a frame against those of the first.
unfoldable pub check_vks : Words × Words → ProofFrame → Result AggError (Unit {0})
unfolding program_vk vadcop_vk same_words
check_vks (pvk, vvk) frame = do
  guard (same_words (program_vk frame) pvk) program_vk_mismatch
  guard (same_words (vadcop_vk frame) vvk) vadcop_vk_mismatch
  ok tt

-- The keys after a frame is taken in.
unfoldable pub ingest_vks : Option (Words × Words) → ProofFrame → Result AggError (Words × Words)
unfolding check_vks
ingest_vks none frame = ok (program_vk frame, vadcop_vk frame)
ingest_vks (some vks) frame = check_vks vks frame >> ok vks

unfoldable pub ingest : Aggregator → ProofFrame → Result AggError Aggregator
unfolding ingest_vks commitment
ingest a frame = do
  vks ← ingest_vks a.vks frame
  ok (record {
    vks = some vks;
    batch_public_inputs = a.batch_public_inputs ++ commitment frame ∷ [];
  })

module _ ⦃K : Keccak⦄ where
  unfoldable pub range_public_input : List Bytes → Result AggError Bytes
  unfolding shr32 be_bytes
  range_public_input [] = err no_proofs
  range_public_input (single ∷ []) = ok (shr32 single)
  range_public_input (first ∷ second ∷ rest) =
      ok (shr32 (be_bytes 32 (K.keccak256 (concat (first ∷ second ∷ rest)))))

  abbrev pub vk_bytes : Words → Bytes
  vk_bytes vk = concat (map (λ w. be_bytes 8 w) vk)

  unfoldable pub finalize : Aggregator → Result AggError Bytes
  unfolding range_public_input be_bytes
  finalize a = do
    vks ← from_option a.vks no_proofs
    range ← range_public_input a.batch_public_inputs
    ok (be_bytes 32 (K.keccak256 (vk_bytes vks.0 ++ (vk_bytes vks.1 ++ range))))

-- The in-guest verification of a stream against its two keys.
pub record Machine : Type 0 where
  pub verify_zisk_proof : Words → Words → Words → Bool

pub data GuestPanic : Type 0 where
  invalid : AggError → GuestPanic
  verification_failed : GuestPanic

abbrev pub unwrap {ℓ} : {A : Type ℓ} → Result AggError A → Result GuestPanic A
unwrap (ok a) = ok a
unwrap (err e) = err (invalid e)

module _ ⦃V : Machine⦄ where
  -- The body of the loop: one proof, read as `slice`.
  unfoldable pub take_proof : Aggregator → Slice → Result GuestPanic Aggregator
  unfolding words_from_bytes parse ingest program_vk vadcop_vk
  take_proof a slice = do
    words ← unwrap (words_from_bytes slice)
    frame ← unwrap (parse words)
    a' ← unwrap (ingest a frame)
    guard (V.verify_zisk_proof frame.words (vadcop_vk frame) (program_vk frame)) verification_failed
    ok a'

  -- `n` proofs, the first of which is read at position `i` of the input.
  unfoldable pub take_proofs : (ℕ → Slice) → ℕ → ℕ → Aggregator → Result GuestPanic Aggregator
  unfolding take_proof
  take_proofs input zero i a = ok a
  take_proofs input (suc n) i a = take_proof a (input i) >>= λ a'. take_proofs input n (i + 1) a'

  -- `main`: the count frame is at position 0 of the input.
  unfoldable pub guest_main : ⦃K : Keccak⦄ → (ℕ → Slice) → Result GuestPanic Bytes
  unfolding parse_count_frame take_proofs finalize
  guest_main input = do
    n ← unwrap (parse_count_frame (input 0).bytes)
    a ← take_proofs input n 1 new
    unwrap (finalize a)
