-- ===== src/Worker.antt =====
-- crates/ledger-worker: the task queue that hands campaign tasks to workers.
pub mod Queue
