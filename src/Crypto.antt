-- ===== src/Crypto.antt =====
-- The hash code of the guest: lib/src/crypto/. Its calls of precompiles through the FFI are parameters.
pub mod Blake2s
