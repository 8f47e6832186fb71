-- ===== src/Merkle.antt =====
-- lib/src/merkle.rs: the depth-64 Blake2s Merkle tree over the flat storage of ZKsync OS.
pub mod Hash
pub mod Tree
pub mod Proof
pub mod Update
pub mod Walk
