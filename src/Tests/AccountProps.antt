-- ===== src/Tests/AccountProps.antt =====
-- The theorems on account properties at concrete inputs.
use zksync_os_zisk.Prelude.Bytes.{be_bytes}
use zksync_os_zisk.Prelude.{◌++◌, ℕ, ◌≡◌, ◌≢◌, refl, [], ◌∷◌, length, replicate, err, ok, arith}
use zksync_os_zisk.Types.{Bytes}
use zksync_os_zisk.Merkle.Hash.{Only, UnlessCollision}
use zksync_os_zisk.AccountProps.{AccountProperties, wrong_length, decode, evm_jumpdest_bitmap}
use zksync_os_zisk.AccountProps.Decode.{decode_lem, derive_flat_storage_key_inj}
use zksync_os_zisk.Tests.Toy.{toy_blake2s}

abbrev short_blob : Bytes
short_blob = replicate 123 1

decode_lem_example :
    (length short_blob ≡ 124 → (p : AccountProperties) × (decode short_blob ≡ ok p))
    × (length short_blob ≢ 124 → decode short_blob ≡ err (wrong_length 124 (length short_blob)))
decode_lem_example = decode_lem short_blob

-- PUSH1 0x5b, JUMPDEST, STOP
abbrev code : Bytes
code = 96 ∷ 91 ∷ 91 ∷ 0 ∷ []

jumpdest_at_2 : evm_jumpdest_bitmap code ≡ 4 ∷ replicate 7 0
unfolding evm_jumpdest_bitmap
jumpdest_at_2 = refl

derive_flat_storage_key_inj_example :
    UnlessCollision
      (Only (replicate 12 0 ++ (be_bytes 20 32771 ++ be_bytes 32 4660)))
      (◌≡◌ {A = ℕ} 32771 32771 × ◌≡◌ {A = ℕ} 4660 4660)
derive_flat_storage_key_inj_example =
    derive_flat_storage_key_inj 32771 32771 4660 4660 (omega arith) (omega arith) (omega arith)
      (omega arith) refl
