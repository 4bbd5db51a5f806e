-- ===== src/Posting.antt =====
-- The posting service (src/domain/posting_service.rs): the only path by which transactions are
-- written. `Data` has the tables and the request, `Checks` what is tested before a write, `Write`
-- the inserts, `Create` the whole of `create_with_kind`, and `Journal` the operations on drafts
-- and on journals that wait for approval.
pub mod Data
pub mod Checks
pub mod Write
pub mod Create
pub mod Journal
pub mod Planned
pub mod Balance
pub mod History
pub mod Approvals
pub mod Bypass
pub mod Numbers
pub mod Legs
pub mod Runs
mod Tests
