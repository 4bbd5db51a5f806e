-- ===== src/Jobs.antt =====
-- The queue of background jobs (src/jobs/mod.rs).
pub mod Queue
pub mod Outcome
pub mod Retries
pub mod Claims
mod Tests
