-- ===== src/Tests/Preimages.antt =====
-- A hash can be without a second preimage of a given byte string, though its digests are few.
use zksync_os_zisk.Prelude.{◌^◌, ◌<◌, ◌≡◌, ◌≢◌, ◌∙◌, refl, sym, ◌⊎◌, inl, inr, List, ℕ, arith}
use zksync_os_zisk.Merkle.Hash.{B256, Blake2s, node_preimage, Only, Collision}
use zksync_os_zisk.Commitment.Hash.{Keccak, KeccakCollision, bytes_cases}

-- One for the byte string `n`, zero for any other.
mark : {m n : List ℕ} → (m ≡ n) ⊎ (m ≢ n) → B256
mark (inl same) = 1
mark (inr differ) = 0

mark-IsB256 : {m n : List ℕ} (c : (m ≡ n) ⊎ (m ≢ n)) → mark c < 2 ^ 256
unfolding mark
mark-IsB256 (inl same) = omega arith
mark-IsB256 (inr differ) = omega arith

marks_differ :
    {m k n : List ℕ} (c : (m ≡ n) ⊎ (m ≢ n)) (d : (k ≡ n) ⊎ (k ≢ n))
    → m ≢ k
    → k ≡ n
    → mark c ≢ mark d
unfolding mark
marks_differ (inl same) d differ known e = differ (same ∙ sym known)
marks_differ (inr other) (inl same) differ known e = omega arith
marks_differ (inr other) (inr wrong) differ known e = wrong known

marking_keccak : List ℕ → Keccak
marking_keccak n = record {
  keccak256 = λ m. mark (bytes_cases m n);
  keccak256-IsB256 = λ m. mark-IsB256 (bytes_cases m n);
}

marking_blake2s : List ℕ → Blake2s
marking_blake2s n = record {
  blake2s = λ m. mark (bytes_cases m n);
  node_hash = λ l r. mark (bytes_cases (node_preimage l r) n);
  blake2s-IsB256 = λ m. mark-IsB256 (bytes_cases m n);
  node_hash_lem = λ l r. refl;
}

keccak_without_collision : (n : List ℕ) → ¬ KeccakCollision ⦃K = marking_keccak n⦄ (Only n)
unfolding marking_keccak
keccak_without_collision n c =
    marks_differ (bytes_cases c.first n) (bytes_cases c.second n) c.differ c.known c.agree

blake2s_without_collision : (n : List ℕ) → ¬ Collision ⦃H = marking_blake2s n⦄ (Only n)
unfolding marking_blake2s
blake2s_without_collision n c =
    marks_differ (bytes_cases c.first n) (bytes_cases c.second n) c.differ c.known c.agree
