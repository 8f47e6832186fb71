-- ===== src/AccountProps/Decode.antt =====
-- The decoder, the storage keys and the bytecode hash of account properties.
use zksync_os_zisk.Prelude.{
  ℕ, ◌+◌, ◌^◌, ◌≤◌, ◌<◌, ◌≡◌, ◌≢◌, refl, ap, inl, inr, true, false, ◌++◌, ◌==◌, leb, length, take,
  drop, replicate, ok, err, arith,
}
use zksync_os_zisk.Prelude.Bytes.{be_bytes, be_bytes_inj, be_bytes_eq, from_be_bytes}
use zksync_os_zisk.Merkle.Hash.{Only, B256, IsB256, Blake2s, UnlessCollision}
use zksync_os_zisk.Types.{Bytes, Address}
use zksync_os_zisk.Commitment.Hash.{bytes_cases}
use zksync_os_zisk.AccountProps.{
  AccountProperties, wrong_length, read_account_properties_field, decode, derive_flat_storage_key,
}

read_ok :
    (n : ℕ) (bytes : Bytes) (offset : ℕ)
    → offset + n ≤ length bytes
    → read_account_properties_field n bytes offset ≡ ok (from_be_bytes (take n (drop offset bytes)))
unfolding read_account_properties_field
read_ok n bytes offset le =
    let fits : leb (offset + n) (length bytes) ≡ true = ground arith in rw fits refl

-- A blob of 124 bytes decodes, and no other does: the error then names both lengths.
pub decode_lem :
    (bytes : Bytes)
    → (length bytes ≡ 124 → (p : AccountProperties) × (decode bytes ≡ ok p))
      × (length bytes ≢ 124 → decode bytes ≡ err (wrong_length 124 (length bytes)))
unfolding decode
decode_lem bytes = (
  λ e.
      let same : (length bytes == 124) ≡ true = ground arith in
      rw
        (
          same,
          read_ok 8 bytes 0 (omega arith),
          read_ok 8 bytes 8 (omega arith),
          read_ok 32 bytes 16 (omega arith),
          read_ok 32 bytes 48 (omega arith),
          read_ok 4 bytes 80 (omega arith),
          read_ok 4 bytes 84 (omega arith),
          read_ok 32 bytes 88 (omega arith),
          read_ok 4 bytes 120 (omega arith),
        )
        (_, refl),
  λ ne. let other : (length bytes == 124) ≡ false = ground arith in rw other refl,
)

module _ ⦃H : Blake2s⦄ where
  -- Slots of one flat storage key have one address and one slot, unless a second preimage of what the
  -- second key is the hash of is at hand. The addresses are below 2 ^ 160 and the slots below 2 ^
  -- 256.
  pub derive_flat_storage_key_inj :
      (a b : Address) (s t : B256)
      → a < 2 ^ 160
      → b < 2 ^ 160
      → IsB256 s
      → IsB256 t
      → derive_flat_storage_key a s ≡ derive_flat_storage_key b t
      → UnlessCollision
          (Only (replicate 12 0 ++ (be_bytes 20 b ++ be_bytes 32 t)))
          ((a ≡ b) × (s ≡ t))
  unfolding derive_flat_storage_key
  derive_flat_storage_key_inj a b s t ha hb hs ht e =
      let m : Address → B256 → Bytes = λ x y. replicate 12 0 ++ (be_bytes 20 x ++ be_bytes 32 y) in
      elim (bytes_cases (m a s) (m b t)) [
        | inr differ ↦
            inr (record { first = m a s; second = m b t; known = refl; differ = differ; agree = e })
        | inl p ↦
            let (ea, tails) =
              be_bytes_inj 20 a b (be_bytes 32 s) (be_bytes 32 t) ha hb (ap (drop 12) p) in
            inl (ea, be_bytes_eq 32 s t hs ht tails)
      ]
