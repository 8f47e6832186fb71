-- ===== src/Tests.antt =====
-- The theorems at concrete inputs, with toy hashes in the place of Blake2s and Keccak-256.
pub mod Toy
pub mod Preimages
pub mod Merkle
pub mod Wire
pub mod Commitment
pub mod BlockHeader
pub mod Crypto
pub mod Executor
pub mod Ring
pub mod Interop
pub mod Commit
pub mod Seal
pub mod Aggregator
pub mod AccountProps
