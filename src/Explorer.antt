-- ===== src/Explorer.antt =====
-- crates/ledger-explorer: the search for failing schedules and their reduction.
pub mod Ddmin
pub mod HittingSet
