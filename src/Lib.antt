-- ===== src/Lib.antt =====
-- A verification library for the batch prover of ZKsync OS on ZiSK.
--
-- The guest program decodes a batch from the wire, validates it, runs its blocks on an EVM whose state
-- reads are authenticated by Merkle proofs, applies the batch's writes to the state tree, and hashes
-- the outcome into the batch public input. This library models the parts that the repository itself
-- implements around the EVM.
--
-- * Merkle models lib/src/merkle.rs. Merkle/Hash has the leaf and node hashes over an interface for
--   Blake2s; Merkle/Tree the tree that all proofs speak of, a list of leaves padded to depth 64;
--   Merkle/Proof `StorageProof::verify`; Merkle/Update the checks and writes of `BatchTreeUpdate`,
--   with the same writes on the whole tree in Merkle/Update/Spec; Merkle/Walk the streaming walk of
--   old and new hashes and `BatchTreeUpdate::apply`, a panic being an error value.
-- * FixedHeight has the in-place fold of a fixed-height tree, which lib/src/block_roots.rs and
--   lib/src/commitment.rs share in shape. BlockRoots models the former, with Blake2s; Commitment the
--   latter, with an interface for Keccak-256.
-- * Types models the shared types of lib/src/types.rs and the encoding of a log.
-- * Wire models lib/src/wire.rs and its frozen schemas. Wire/V3 and Wire/V5 are the schemas of
--   lib/src/wire/v3.rs and lib/src/wire/v5.rs; Wire/V3/Normalize and Wire/V3/Freeze the conversions
--   to and from the current types, Wire/Decode the dispatch on the version.
-- * Executor models the checks before execution in lib/src/executor/mod.rs. The specs and their order
--   are those of the zksync-os-revm crate, and the order is a parameter. Executor/TreeUpdate models
--   `verify_tree_update` of lib/src/executor/verify.rs; Executor/Ring the ring of the last 256 block
--   hashes, checked before a batch and committed after it; Executor/Interop the reads of
--   lib/src/executor/interop.rs; Executor/Commit `run_execution_and_commit`, in which the execution of
--   a block and the decoding of an imported interop root are parameters. Executor/Seal is the part of
--   `execute_block_proven` of lib/src/executor/evm.rs that follows the run of a block: its header and
--   the check against the sealed hash; what the run produced is an argument.
-- * Crypto/Blake2s models lib/src/crypto/blake2s.rs: the streaming hasher and the node hash over the
--   `blake2sf` permutation, which is a parameter, with the software permutation as one of its values.
--   Crypto/Blake2s/Fills shows that this code fills the interface that Merkle is built over.
-- * Aggregator models the aggregation guest, guest-aggregator/src/lib.rs and
--   guest-aggregator/src/main.rs; Aggregator/Input the framing of its input on the host,
--   prover/src/aggregator_input.rs.
-- * BlockHeader models lib/src/block_header.rs: the RLP encoders, the header hash and the rolling hash
--   of the transactions. The code appends to a buffer; the model returns what it appends.
-- * AccountProps models the account properties and the storage keys of lib/src/merkle.rs and the fields
--   that lib/src/account_props.rs derives from code.
-- * Tests runs the theorems on concrete inputs.
--
-- A 32-byte value is a number below 2 ^ 256, read big-endian, and a u64 is a number below 2 ^ 64.
-- Subtraction and addition that can wrap have the modulus written out: the guest is built without
-- overflow checks. Loops are structural recursion on the rounds that are left, and those are the
-- source's own bounds: 64 levels of the state tree, 32, 14 and 3 of the other trees. The scan of the
-- code for jump destinations has as many rounds as the code has bytes. The loop that feeds the Blake2s
-- hasher has as many rounds as its input has bytes, each round taking at least one, and the loop that
-- reads frames as many as its input has bytes, each frame taking eight at least. A hash is opaque;
-- where a statement needs that a hash has no second preimage, it holds unless the proof exhibits one, of
-- a byte string out of a set that the statement names: those that a given tree, ring, header, log list
-- or commitment hashes. There are finitely many of those, so that the statement says something of every
-- hash for which none of them has a second preimage, which counting digests does not exclude.
--
-- Not modelled: the EVM and its database (the REVM crates) and the write map built from its cache, the
-- bincode encoding, the receipt leaf and other encodings of third-party crates, the FFI to the
-- precompiles, the reads of 32-byte values as aligned words in the Blake2s code, and the prover service.
pub mod Prelude
pub mod Merkle
pub mod Types
pub mod Wire
pub mod FixedHeight
pub mod BlockRoots
pub mod BlockHeader
pub mod Commitment
pub mod Crypto
pub mod AccountProps
pub mod Executor
pub mod Aggregator
pub mod Tests
