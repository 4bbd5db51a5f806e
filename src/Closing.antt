-- ===== src/Closing.antt =====
-- Close controls (src/domain/close_controls.rs): reasons and the sequence of invoice numbers. The
-- close watermark is in Posting/Checks.antt, where postings are checked against it.
pub mod Numbering
pub mod Suffix
pub mod Gapless
mod Tests
