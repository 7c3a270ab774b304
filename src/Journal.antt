-- ===== src/Journal.antt =====
-- crates/ledger-journal: the causal journal.
pub mod Clock
pub mod Dag
pub mod Slice
pub mod Batch
