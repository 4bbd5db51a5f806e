-- ===== src/Lib.antt =====
-- openaccounting: the bookkeeping core, modelled and proved.
--
-- The program is a web application over a database. Its services are written as functions on the
-- tables they read and write: a table is a list of rows, in the order of insertion; a SELECT, an
-- UPDATE or a DELETE is a recursion over it (Prelude/Tables.antt). A service runs in one database
-- transaction, so an error leaves the tables as they were: a call is a function from the tables to
-- `Result Error (value × tables)` (Prelude/Results.antt). The revaluation commits each statement,
-- so it returns its tables with an error too. What the database itself refuses (CHECK and UNIQUE
-- constraints, the append-only trigger) is an error like the others. Locks make the calls of a
-- ledger one after the other, so a history is a sequence of calls.
--
-- Files and code:
-- - Prelude: shared names, signed integers over the native numbers, tables, results, texts as lists
--   of code points with printing and parsing of numbers, and the foreign parameters.
-- - Fx (src/domain/fx.rs): `lookup` and `derive_base_amount`.
-- - Revaluation (src/domain/fx.rs): `run_revaluation`, which posts by `create` of Posting; Again has
--   the proofs.
-- - Posting (src/domain/posting_service.rs, with the request types of src/domain/transaction.rs and
--   the close watermark of src/domain/close_controls.rs). Data has the tables, the request and the
--   errors; Checks, Write and Create are `create_with_kind`, `create` and `create_draft`; Journal is
--   `post_draft`, `delete_draft`, `approve_journal` and `reject_journal`. The other files hold the
--   proofs: Planned (what a success says of every step), Balance and History, Approvals, Bypass,
--   Numbers, Legs. `create` calls Fx for lines with a foreign leg.
-- - Accounts (src/domain/account.rs, src/handlers/accounts.rs): Chart has the types and subtypes of
--   accounts, Handlers `create` and `update` with the constraints of the schema; Classified and Kept
--   hold the proofs.
-- - Reports (src/reports/trial_balance.rs, balance_sheet.rs, income_statement.rs, general_ledger.rs
--   and mod.rs). Data has the joins of the queries; TrialBalance, BalanceSheet, Income with
--   IncomeQuery, and GeneralLedger are the four reports. The reports read the tables that Posting
--   writes: LedgerBalance carries double entry from the service's histories to the accounts of one
--   ledger, GrandTotal sums it up account by account, and TrialTotals, Sections with Split and
--   Equation, NetIncome with Statements, and Period hold the proofs of the four.
-- - Audit (src/audit/chain.rs): Encode is the serialization, Chain the digest, `log_hashed`,
--   `ensure_backfilled` and `verify`; the other files hold the proofs.
-- - Auth (src/auth/rate_limit.rs, src/auth/session_timeout.rs): the limiter of sign-in attempts, and
--   in Timeout the timeouts of a session.
-- - Claims (src/domain/reimbursement.rs, approval_routing.rs and policies.rs,
--   src/handlers/reimbursement.rs): the claims of employees. Status is the machine of their states,
--   Data the tables, Routing the levels of approval and who may approve, Policies the evaluation of
--   policies, Access and Check what the handlers share; Handlers has `create`, `add_line`, `submit`
--   and `reject`, Approve and Pay the two handlers that post, and Trigger the row trigger that their
--   statements meet (migrations/0001_init.sql). `approve` reads the claim before its database
--   transaction: `approve_start` and `approve_commit` are apart, so that a commit can meet a claim
--   that has changed since. The other files hold the proofs: Done, Paid and Commit (what a success has
--   read and written), Pairs, Grouped, Booked and Fully (what the trigger lets through), Totals, LegTotals
--   and Unchecked (what the legs add up to without it), Levels,
--   StatusOf, Loading and Moves (the status of each claim), and Reachable, History, Approval, Once,
--   Payout, Caps, Receipts and Auditors.
-- - Closing (src/domain/close_controls.rs): reasons and `next_invoice_number`.
-- - Forecast (src/reports/cash_flow_forecast.rs): Schedule has `advance` and `materialize_forecast`,
--   Project the daily balances, Build the queries and `build_forecast`; Balances and Forecasts hold
--   the proofs.
-- - Jobs (src/jobs/mod.rs): the queue of background jobs; what a job's handler does is a parameter.
--   Outcome, Retries and Claims hold the proofs.
-- - Lots (src/domain/investment_lot.rs): the lots of investments and their disposal; Fifo has the
--   operations, Open, Sold and Order the proofs.
-- - Stock (src/domain/inventory_valuation.rs): valuation of a sequence of movements; Queue is the
--   reference, a queue of single units.
--
-- Choices. Identifiers are only compared, so they are numbers; those the database generates are
-- arguments. Dates are day numbers, and times numbers of microseconds, in Jobs of seconds, in
-- Auth/Timeout of milliseconds. A posted amount is a whole number of ten-thousandths, as its
-- NUMERIC(20,4) column holds it (a request is taken to have no finer ones: the program checks the
-- balance of finer ones before the column rounds them, so for them it is not what is proved here);
-- in valuation it is a whole number of 10^-28, the finest scale of a `Decimal`. Where `i32`
-- arithmetic overflows, the model stops with an error. What other crates do is a parameter: the
-- calendar of chrono, the product and the reciprocal of rust_decimal (`Env` in
-- Prelude/Foreign.antt, and the quotient in Stock), and SHA-256. The laws assumed of them are
-- `IsCalendar`, that the last day of a year bounds exactly the dates up to that year, and
-- `IsExact`, that a product of at most 28 places and 96 bits is exact and one with zero is zero; a
-- stored rate has 12 places, an amount four, and only a reciprocal has more. The row trigger
-- `trg_posting_balance` is a flag of the tables: `create` commits its ALTER TABLE … DISABLE
-- TRIGGER, which nothing undoes, and the claims, whose tables are apart (Claims/Data.antt), are
-- modelled for both values. The two queries of `lookup` each have a table of their own. The order
-- of the rows of a report is a parameter, as the database's collation decides it, and so is its
-- test of account names for cash and bank. A quantity of an investment is a whole number of 10^-8,
-- a realized gain the exact product in 10^-16, which the database rounds where it stores it. Loops
-- are recursion on the lists they walk. On fuel are the printing of a number, which the number
-- itself bounds, the dates of a forecast, where the guard of 400 rounds is the source's own, and
-- the disposal of lots, where one round for each lot and one more is proved enough.
--
-- Not modelled: HTTP handlers other than those of accounts and claims, templates, imports and
-- exports, the other reports, workers, storage and the cryptographic parts of sign-in, which are
-- input and output or calls of other crates; of the domain depreciation and reconciliation; and of
-- the claims two database transactions that overlap, each of which is one step here.
pub mod Prelude
pub mod Fx
pub mod Posting
pub mod Revaluation
pub mod Reports
pub mod Accounts
pub mod Audit
pub mod Auth
pub mod Closing
pub mod Stock
pub mod Lots
pub mod Jobs
pub mod Claims
pub mod Forecast
