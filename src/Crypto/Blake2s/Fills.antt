-- ===== src/Crypto/Blake2s/Fills.antt =====
-- lib/src/crypto/blake2s.rs fills the interface that lib/src/merkle.rs hashes through.
use zksync_os_zisk.Prelude.{
  ℕ, zero, suc, ◌+◌, ◌-◌, ◌*◌, ◌/◌, ◌%◌, ◌^◌, ◌<◌, ◌≡◌, refl, ap, sym, ◌∙◌, Bool, true, false,
  Option, none, some, [], ◌∷◌, ◌++◌, length, length-append, take, drop, All, replicate, take-append,
  drop-append, length-drop, arith,
}
use mathlib.Core.List.{append-nil}
use zksync_os_zisk.Prelude.Bytes.{
  IsByte, from_be_bytes-lt, be_bytes, le_bytes, from_be_bytes, from_le_bytes, length-be_bytes,
  length-le_bytes, le_bytes-IsByte,
}
use zksync_os_zisk.Merkle.Hash.{B256, Blake2s, node_preimage}
use zksync_os_zisk.Types.{Bytes}
use zksync_os_zisk.Crypto.Blake2s.{
  Slots, Blake2sf, block_bytes, read_slots, slots_of, block_slots_of, bytes_of, compress,
  feed_forward, initial_state, node_hash, digest,
}
use zksync_os_zisk.Crypto.Blake2s.Digest.{rfc_digest, fold_blocks, hash_parts_lem}

sucs : (m n : ℕ) → suc m + n ≡ suc (m + n)
sucs m n = omega arith

read_slots-append :
    (m n : ℕ) (xs ys : Bytes)
    → length xs ≡ 8 * m
    → read_slots (m + n) (xs ++ ys) ≡ read_slots m xs ++ read_slots n ys
unfolding read_slots
read_slots-append zero n [] ys e = ap (λ k. read_slots k ys) (omega arith)
read_slots-append zero n (x ∷ xs) ys e = absurd (omega arith)
read_slots-append (suc m) n xs ys e =
    ap (λ (k : ℕ). read_slots k (xs ++ ys)) (sucs m n)
    ∙ ap (λ l. from_le_bytes l ∷ read_slots (m + n) (drop 8 (xs ++ ys)))
        (take-append 8 xs ys (omega arith))
    ∙ ap (λ l. from_le_bytes (take 8 xs) ∷ read_slots (m + n) l) (drop-append 8 xs ys (omega arith))
    ∙ ap (λ l. from_le_bytes (take 8 xs) ∷ l)
        (read_slots-append m n (drop 8 xs) ys (omega (arith, length-drop 8 xs)))

length-bytes_of : (s : Slots) → length (bytes_of s) ≡ 8 * length s
unfolding bytes_of
length-bytes_of [] = omega arith
length-bytes_of (x ∷ s) =
    omega (arith, length-append (le_bytes 8 x) (bytes_of s), length-le_bytes 8 x, length-bytes_of s)

All-append : (xs ys : Bytes) → All IsByte xs → All IsByte ys → All IsByte (xs ++ ys)
All-append [] ys hx hy = hy
All-append (x ∷ xs) ys (b, hx) hy = (b, All-append xs ys hx hy)

bytes_of-IsByte : (s : Slots) → All IsByte (bytes_of s)
unfolding bytes_of
bytes_of-IsByte [] = tt
bytes_of-IsByte (x ∷ s) =
    All-append (le_bytes 8 x) (bytes_of s) (le_bytes-IsByte 8 x) (bytes_of-IsByte s)

length-feed_forward : (h lo hi : Slots) → length (feed_forward h lo hi) ≡ length h
unfolding feed_forward
length-feed_forward [] lo hi = refl
length-feed_forward (x ∷ h) lo hi = ap suc (length-feed_forward h (drop 1 lo) (drop 1 hi))

-- A 32-byte digest.
abbrev pub IsDigest : Bytes → Type 0
IsDigest d = (length d ≡ 32) × All IsByte d

module _ ⦃P : Blake2sf⦄ where
  length-compress : (h m : Slots) (t : ℕ) (last : Bool) → length (compress h m t last) ≡ length h
  unfolding compress
  length-compress h m t last = length-feed_forward h _ _

  bytes_of-compress-IsDigest :
      (h m : Slots) (t : ℕ) (last : Bool) → length h ≡ 4 → IsDigest (bytes_of (compress h m t last))
  bytes_of-compress-IsDigest h m t last four = (
    omega (arith, length-bytes_of (compress h m t last), length-compress h m t last),
    bytes_of-IsByte (compress h m t last),
  )

  fold_blocks-IsDigest :
      (k : ℕ) (h : Slots) (t : ℕ) (m : Bytes) → length h ≡ 4 → IsDigest (fold_blocks k h t m)
  unfolding fold_blocks
  fold_blocks-IsDigest zero h t m four = bytes_of-compress-IsDigest h _ _ true four
  fold_blocks-IsDigest (suc k) h t m four =
      fold_blocks-IsDigest k
        (compress h (block_slots_of (take block_bytes m)) ((t + block_bytes) % 2 ^ 64) false)
        ((t + block_bytes) % 2 ^ 64) (drop block_bytes m)
        (length-compress h (block_slots_of (take block_bytes m)) ((t + block_bytes) % 2 ^ 64) false
          ∙ four)

  length-initial_state : length initial_state ≡ 4
  unfolding initial_state
  length-initial_state = refl

  rfc_digest-IsDigest : (m : Bytes) → IsDigest (rfc_digest m)
  unfolding rfc_digest
  rfc_digest-IsDigest m = fold_blocks-IsDigest ((length m - 1) / block_bytes) initial_state 0 m refl

  -- `digest` returns 32 bytes on every input.
  pub digest-IsDigest : (m : Bytes) → (d : Bytes) × (digest m ≡ some d) × IsDigest d
  unfolding digest
  digest-IsDigest m = (
    rfc_digest m,
    hash_parts_lem (m ∷ []) ∙ ap (λ l. some (rfc_digest l)) (append-nil m),
    rfc_digest-IsDigest m,
  )

  one_block :
      (l r : Bytes) → length l ≡ 32 → length (l ++ r) ≡ 64 → rfc_digest (l ++ r) ≡ node_hash l r
  unfolding rfc_digest fold_blocks node_hash slots_of block_slots_of
  one_block l r half size =
      ap (λ (n : ℕ). fold_blocks ((n - 1) / block_bytes) initial_state 0 (l ++ r)) size
      ∙ ap
          (λ (n : ℕ). bytes_of (
            compress initial_state (read_slots 8 ((l ++ r) ++ replicate (block_bytes - n) 0))
              ((0 + n) % 2 ^ 64) true))
          size
      ∙ ap (λ m. bytes_of (compress initial_state m 64 true))
          (ap (λ m. read_slots 8 m) (append-nil (l ++ r)) ∙ read_slots-append 4 4 l r half)

  -- The one-block hash of two 32-byte strings is the digest of the two put together.
  pub node_hash-digest :
      (l r : Bytes) → length l ≡ 32 → length r ≡ 32 → digest (l ++ r) ≡ some (node_hash l r)
  unfolding digest
  node_hash-digest l r hl hr =
      hash_parts_lem ((l ++ r) ∷ [])
      ∙ ap (λ m. some (rfc_digest m)) (append-nil (l ++ r))
      ∙ ap some (one_block l r hl (omega (arith, length-append l r)))

  -- The value of a digest, read big-endian.
  abbrev pub value_of_digest : Option Bytes → B256
  value_of_digest none = 0
  value_of_digest (some d) = from_be_bytes d

  blake2s_fits : (m : Bytes) → value_of_digest (digest m) < 2 ^ 256
  blake2s_fits m =
      let (d, ran, (size, bytes)) = digest-IsDigest m in
      rw ran (rw (ap (λ (n : ℕ). 256 ^ n) size) at (from_be_bytes-lt d bytes))

  node_hash_fills :
      (l r : B256)
      → from_be_bytes (node_hash (be_bytes 32 l) (be_bytes 32 r))
        ≡ value_of_digest (digest (node_preimage l r))
  node_hash_fills l r = sym (
      ap value_of_digest (
        node_hash-digest (be_bytes 32 l) (be_bytes 32 r) (length-be_bytes 32 l)
          (length-be_bytes 32 r)))

  -- `digest` and `node_hash` as the hashes of lib/src/merkle.rs.
  pub hasher : Blake2s
  hasher = record {
    blake2s = λ m. value_of_digest (digest m);
    node_hash = λ l r. from_be_bytes (node_hash (be_bytes 32 l) (be_bytes 32 r));
    blake2s-IsB256 = blake2s_fits;
    node_hash_lem = node_hash_fills;
  }
