-- ===== src/Rt.antt =====
-- crates/ldgr-rt: the in-process runtime and its frame protocol.
pub mod Codec
pub mod Message
