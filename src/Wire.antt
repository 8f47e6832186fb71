-- ===== src/Wire.antt =====
-- The wire boundary (lib/src/wire.rs): the decoder chooses a schema by the leading version. The
-- `bincode` crate is a parameter.
pub mod V3
pub mod V5
pub mod Decode
