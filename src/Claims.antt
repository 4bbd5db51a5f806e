-- ===== src/Claims.antt =====
-- Reimbursement claims (src/domain/reimbursement.rs, approval_routing.rs, policies.rs and
-- src/handlers/reimbursement.rs).
pub mod Status
pub mod Reachable
pub mod Data
pub mod Routing
pub mod Policies
pub mod Access
pub mod Check
pub mod Handlers
pub mod Trigger
pub mod Approve
pub mod Pay
pub mod Pairs
pub mod Booked
pub mod Commit
pub mod Levels
pub mod Grouped
pub mod Totals
pub mod LegTotals
pub mod Unchecked
pub mod Fully
pub mod StatusOf
pub mod Loading
pub mod Done
pub mod Paid
pub mod Moves
pub mod Approval
pub mod Auditors
pub mod History
pub mod Once
pub mod Payout
pub mod Caps
pub mod Receipts
pub mod Samples
mod Tests
