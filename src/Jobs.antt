-- ===== src/Jobs.antt =====
-- Background jobs: the distributed lock and the runners that take it.
pub mod Lock
pub mod Runner
pub mod Single
