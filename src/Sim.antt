-- ===== src/Sim.antt =====
-- crates/ledger-sim: the deterministic simulator.
pub mod Time
pub mod Fs
pub mod Net
