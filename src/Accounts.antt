-- ===== src/Accounts.antt =====
-- The chart of accounts: `src/domain/account.rs` and the handlers that write the `accounts` table.
pub mod Chart
pub mod Handlers
pub mod Classified
pub mod Kept
mod Tests
