-- ===== src/Aggregator/Guest.antt =====
-- What a run of guest-aggregator/src/main.rs that commits an output has seen.
use zksync_os_zisk.Prelude.{
  ℕ, suc, ◌≡◌, ap, sym, ◌∙◌, not, List, [], ◌∷◌, ◌++◌, map, ◌==◌, length, All, ok, guard-eq-ok,
  >>=-eq-ok, ok_inj,
}
use zksync_os_zisk.Prelude.Bytes.{be_bytes, from_le_bytes}
use zksync_os_zisk.Types.{Bytes}
use zksync_os_zisk.Commitment.Hash.{Keccak}
use zksync_os_zisk.Aggregator.{
  Slice, ProofFrame, program_vk, vadcop_vk, commitment, Aggregator, new, Machine, unwrap,
  take_proofs, parse_count_frame, guest_main, finalize, no_proofs, range_public_input, vk_bytes,
  bad_count_frame,
}
use zksync_os_zisk.Aggregator.Fold.{
  HasKeys, keys_of, holding, ingest_all, ingest_all_lem, unwrap-eq-ok, AcceptedFrom,
  take_proofs-Accepted,
}

count_positive : (bytes : Bytes) (n : ℕ) → parse_count_frame bytes ≡ ok n → ¬ (n ≡ 0)
unfolding parse_count_frame
count_positive bytes n e zero_n =
    let (e₁, r₁) = guard-eq-ok (length bytes == 8) (bad_count_frame (length bytes)) _ e in
    let (e₂, r₂) = guard-eq-ok (not (from_le_bytes bytes == 0)) no_proofs _ r₁ in
    let same : from_le_bytes bytes ≡ 0 = ok_inj r₂ ∙ zero_n in absurd (cc (rw same at e₂))

module _ ⦃K : Keccak⦄ where
  finalize-holding :
      (keys : List ℕ × List ℕ) (pis : List Bytes) (out : Bytes)
      → finalize (holding keys pis) ≡ ok out
      → (range : Bytes) × (range_public_input pis ≡ ok range)
        × (out ≡ be_bytes 32 (K.keccak256 (vk_bytes keys.0 ++ (vk_bytes keys.1 ++ range))))
  unfolding finalize
  finalize-holding keys pis out e =
      let (range, found, end) = >>=-eq-ok (range_public_input pis) _ e in
      (range, found, sym (ok_inj end))

  module _ ⦃V : Machine⦄ where
    -- If the aggregation guest commits an output, then the count frame gives the number of proofs
    -- read, at least one; each slice read is a proof stream that the in-guest verification accepts
    -- under the keys it carries; all carry the keys of the first; and the output is the Keccak-256
    -- hash of the two keys, big-endian, and the range public input of the batch commitments in the
    -- order of the slices.
    pub guest_main_lem :
        (input : ℕ → Slice) (out : Bytes)
        → guest_main input ≡ ok out
        → (first : ProofFrame) × (rest : List ProofFrame) × (parse_count_frame (input 0).bytes
            ≡ ok (suc (length rest)))
          × AcceptedFrom input 1 (first ∷ rest)
          × All (HasKeys (program_vk first, vadcop_vk first)) rest
          × (range : Bytes) × (range_public_input (map (λ f. commitment f) (first ∷ rest))
              ≡ ok range)
          × (out
              ≡ be_bytes 32 (
                  K.keccak256
                    (vk_bytes (program_vk first) ++ (vk_bytes (vadcop_vk first) ++ range))))
    unfolding guest_main
    guest_main_lem input out e =
        let (n, counted, r₁) = >>=-eq-ok (unwrap (parse_count_frame (input 0).bytes)) _ e in
        let (a, taken, r₂) = >>=-eq-ok (take_proofs input n 1 new) _ r₁ in
        let (frames, size, accepted, all) = take_proofs-Accepted input n 1 new a taken in
        finished frames n size (unwrap-eq-ok (parse_count_frame (input 0).bytes) counted) accepted a
          all (unwrap-eq-ok (finalize a) r₂)
      where
        finished :
            (frames : List ProofFrame) (n : ℕ)
            → length frames ≡ n
            → parse_count_frame (input 0).bytes ≡ ok n
            → AcceptedFrom input 1 frames
            → (a : Aggregator) → ingest_all new frames ≡ ok a
            → finalize a ≡ ok out
            → (first : ProofFrame) × (rest : List ProofFrame) × (parse_count_frame (input 0).bytes
                ≡ ok (suc (length rest)))
              × AcceptedFrom input 1 (first ∷ rest)
              × All (HasKeys (program_vk first, vadcop_vk first)) rest
              × (range : Bytes) × (range_public_input (map (λ f. commitment f) (first ∷ rest))
                  ≡ ok range)
              × (out
                  ≡ be_bytes 32 (
                      K.keccak256
                        (vk_bytes (program_vk first) ++ (vk_bytes (vadcop_vk first) ++ range))))
        finished [] n size counted accepted a all end =
            absurd (count_positive (input 0).bytes n counted (sym size))
        finished (first ∷ rest) n size counted accepted a all end =
            let (keys, held) = (ingest_all_lem first rest a).0 all in
            let (range, found, hash) =
              finalize-holding (keys_of first) (map (λ f. commitment f) (first ∷ rest)) out
                (ap (λ b. finalize b) (sym held) ∙ end) in
            (first, rest, counted ∙ ap ok (sym size), accepted, keys, range, found, hash)
