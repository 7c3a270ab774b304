-- ===== src/Format.antt =====
-- crates/ledger-format: the outer frame of durable containers, and hashes as hex.
pub mod Frame
pub mod Hex
pub mod Hash
pub mod FilePath
pub mod Value
