-- ===== src/Tests/Crypto.antt =====
-- Blake2s-256 on published vectors and on split inputs, with the software permutation.
use zksync_os_zisk.Prelude.{◌≡◌, refl, some, List, [], ◌∷◌, ◌++◌, replicate, concat, arith}
use zksync_os_zisk.Prelude.Bytes.{be_bytes, le_bytes, from_le_bytes}
use zksync_os_zisk.Types.{Bytes}
use zksync_os_zisk.Crypto.Blake2s.{Hasher, new, update, hash_parts, node_hash, digest}
use zksync_os_zisk.Crypto.Blake2s.Stream.{IsHasher, update-IsHasher}
use zksync_os_zisk.Crypto.Blake2s.Digest.{rfc_digest, hash_parts_lem}
use zksync_os_zisk.Crypto.Blake2s.Fills.{node_hash-digest}
use zksync_os_zisk.Crypto.Blake2s.Software.{software}

-- RFC 7693, appendix B.
digest-abc :
    digest (97 ∷ 98 ∷ 99 ∷ [])
    ≡ some (be_bytes 32 0x508c5e8c327c14e2e1a72ba34eeb452f37458b209ed63a294d999b4c86675982)
unfolding digest software be_bytes le_bytes from_le_bytes
digest-abc = refl

digest_empty :
    digest []
    ≡ some (be_bytes 32 0x69217a3079908094e11121d042354a7c1f55b6482ca1a51e1b250dfd1ed0eef9)
unfolding digest software be_bytes le_bytes from_le_bytes
digest_empty = refl

abbrev parts : List Bytes
parts = replicate 63 5 ∷ [] ∷ replicate 66 7 ∷ []

hash_parts_lem_example : hash_parts parts ≡ some (rfc_digest (concat parts))
hash_parts_lem_example = hash_parts_lem parts

new-IsHasher : IsHasher new
unfolding new
new-IsHasher = record { block = refl; within = omega arith }

update-IsHasher_example : (s' : Hasher) × (update new (replicate 65 7) ≡ some s') × IsHasher s'
update-IsHasher_example = update-IsHasher new (replicate 65 7) new-IsHasher

node_hash-digest_example :
    digest (replicate 32 17 ++ replicate 32 0) ≡ some (node_hash (replicate 32 17) (replicate 32 0))
node_hash-digest_example = node_hash-digest (replicate 32 17) (replicate 32 0) refl refl
