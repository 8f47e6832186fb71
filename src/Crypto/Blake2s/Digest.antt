-- ===== src/Crypto/Blake2s/Digest.antt =====
-- The digest of lib/src/crypto/blake2s.rs against RFC 7693, section 3.3, and the node hash of Merkle
-- trees.
use zksync_os_zisk.Prelude.{
  ℕ, zero, suc, ◌+◌, ◌-◌, ◌/◌, ◌%◌, ◌^◌, ◌<◌, ◌≡◌, refl, ap, sym, ◌∙◌, true, false, some, List, [],
  ◌∷◌, ◌++◌, length, take, drop, replicate, concat, length-take, length-drop, take-drop, arith,
}
use zksync_os_zisk.Types.{Bytes}
use zksync_os_zisk.Crypto.Blake2s.{
  Slots, Blake2sf, Hasher, block_bytes, block_slots_of, bytes_of, compress, initial_state, new,
  finalize, hash_parts,
}
use zksync_os_zisk.Crypto.Blake2s.Stream.{
  IsHasher, Absorbed, absorb, taken, absorb-append, absorb_within, absorb_over, updates_lem,
}

module _ ⦃P : Blake2sf⦄ where
  finish : Absorbed → Bytes
  finish a = bytes_of (
      compress a.state (block_slots_of (a.pending ++ replicate (block_bytes - length a.pending) 0))
        ((a.count + length a.pending) % 2 ^ 64) true)

  finalize-finish : (s : Hasher) → IsHasher s → finalize s ≡ finish (taken s)
  unfolding finalize finish taken
  finalize-finish s v = rw (length-take s.buf_len s.buf (omega (arith, v.block, v.within))) refl

  -- The last block padded with zeros and flagged, after as many full ones as the number says.
  unfoldable pub fold_blocks : ℕ → Slots → ℕ → Bytes → Bytes
  unfolding compress block_slots_of bytes_of
  fold_blocks zero h t m = bytes_of (
      compress h (block_slots_of (m ++ replicate (block_bytes - length m) 0))
        ((t + length m) % 2 ^ 64) true)
  fold_blocks (suc k) h t m =
      let t' = (t + block_bytes) % 2 ^ 64 in
      fold_blocks k (compress h (block_slots_of (take block_bytes m)) t' false) t'
        (drop block_bytes m)

  -- The digest of RFC 7693, section 3.3, of a message without a key.
  unfoldable pub rfc_digest : Bytes → Bytes
  unfolding fold_blocks initial_state
  rfc_digest m = fold_blocks ((length m - 1) / block_bytes) initial_state 0 m

  absorb-fold :
      (k : ℕ) (h : Slots) (t : ℕ) (m : Bytes)
      → k ≡ (length m - 1) / block_bytes
      → finish (absorb (record { state = h; count = t; pending = [] }) m) ≡ fold_blocks k h t m
  unfolding fold_blocks
  absorb-fold zero h t m e =
      ap finish (absorb_within h t [] m (omega arith)) ∙ (unfold finish in refl)
  absorb-fold (suc k) h t m e =
      let size = length-take block_bytes m (omega arith) in
      let left = length-drop block_bytes m in
      let t' = (t + block_bytes) % 2 ^ 64 in
      ap (λ l. finish (absorb (record { state = h; count = t; pending = [] }) l))
        (sym (take-drop block_bytes m))
      ∙ ap finish (
          absorb-append (record { state = h; count = t; pending = [] }) (take block_bytes m)
            (drop block_bytes m))
      ∙ ap (λ a. finish (absorb a (drop block_bytes m)))
          (absorb_within h t [] (take block_bytes m) (omega (arith, size)))
      ∙ ap finish (over (drop block_bytes m) (omega (arith, left)))
      ∙ absorb-fold k (compress h (block_slots_of (take block_bytes m)) t' false) t'
          (drop block_bytes m) (omega (arith, left))
    where
      over :
          (rest : Bytes)
          → 0 < length rest
          → absorb (record { state = h; count = t; pending = take block_bytes m }) rest
            ≡ absorb
                (record {
                  state =
                      compress h
                        (block_slots_of (take block_bytes m))
                        ((t + block_bytes) % 2 ^ 64)
                        false;
                  count = (t + block_bytes) % 2 ^ 64;
                  pending = [];
                })
                rest
      over [] pos = absurd (omega arith)
      over (b ∷ rest) pos =
          absorb_over h t (take block_bytes m) b rest (length-take block_bytes m (omega arith))

  new-IsHasher : IsHasher new
  unfolding new
  new-IsHasher = record { block = refl; within = omega arith }

  taken-new : taken new ≡ record { state = initial_state; count = 0; pending = [] }
  unfolding taken new
  taken-new = refl

  -- A new hasher that is given any pieces one after another, and then finalized, returns the digest
  -- of RFC 7693 of the pieces put together: the message is cut into blocks of 64 bytes, the counter
  -- says how many bytes are compressed, modulo 2 ^ 64, and the last block is padded with zeros and
  -- flagged.
  pub hash_parts_lem : (parts : List Bytes) → hash_parts parts ≡ some (rfc_digest (concat parts))
  unfolding hash_parts rfc_digest
  hash_parts_lem parts =
      let (s, ran, v, took) = updates_lem new parts new-IsHasher in
      rw (ran, hash_parts)
        (ap some (
          finalize-finish s v
          ∙ ap finish took
          ∙ ap (λ (a : Absorbed). finish (absorb a (concat parts))) taken-new
          ∙ absorb-fold ((length (concat parts) - 1) / block_bytes) initial_state 0 (concat parts)
              refl))
