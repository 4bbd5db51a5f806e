-- ===== src/Audit.antt =====
-- The hash chain over the audit log (src/audit/chain.rs): the canonical bytes of a row, the
-- append, the backfill and the verification. SHA-256 is a parameter.
pub mod Encode
pub mod Chain
pub mod Encoding
pub mod Verify
pub mod Tamper
pub mod Backfill
mod Tests
