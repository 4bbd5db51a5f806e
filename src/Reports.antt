-- ===== src/Reports.antt =====
-- The reports on the books of a ledger: `src/reports/` and the chart of accounts they read.
pub mod Data
pub mod TrialBalance
pub mod LedgerBalance
pub mod GrandTotal
pub mod TrialTotals
pub mod BalanceSheet
pub mod Sections
pub mod Income
pub mod IncomeQuery
pub mod Split
pub mod Equation
pub mod NetIncome
pub mod Statements
pub mod GeneralLedger
pub mod Period
mod Tests
