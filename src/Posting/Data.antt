-- ===== src/Posting/Data.antt =====
-- The tables that the posting service reads and writes, its request and its errors. Identifiers
-- (`Uuid`) are only compared, so they are numbers; dates are day numbers.
use openaccounting.Prelude.{ℕ, String, Bool, Option, List}
use openaccounting.Prelude.Int.{ℤ}
use openaccounting.Prelude.Texts.{Text}
use openaccounting.Fx.{FxRate, FxError}

pub data Direction : Type 0 where
  debit credit : Direction

pub record Ledger : Type 0 where
  pub id : ℕ
  pub base_currency : String
  pub append_only : Bool
  pub approval_threshold : Option ℤ

-- A row of `accounts`, `cost_centers` or `projects`, as far as the service reads it.
pub record Scoped : Type 0 where
  pub id : ℕ
  pub ledger_id : ℕ

pub record ClosedPeriod : Type 0 where
  pub ledger_id : ℕ
  pub period_year : Option ℕ
  pub closed_through : Option ℕ

pub record ForeignLeg : Type 0 where
  pub signed_amount : ℤ
  pub currency : String

pub record TxnLineInput : Type 0 where
  pub account_id : ℕ
  pub signed_amount : ℤ
  pub memo : Option String
  pub tax_rate_id : Option ℕ
  pub foreign : Option ForeignLeg
  pub cost_center_id : Option ℕ
  pub project_id : Option ℕ

pub record TaxLink : Type 0 where
  pub posting_idx : ℕ
  pub tax_rate_id : ℕ
  pub base_amount : ℤ
  pub tax_amount : ℤ

pub record NewTransaction : Type 0 where
  pub ledger_id : ℕ
  pub txn_date : ℕ
  pub description : String
  pub payee : Option String
  pub reference : Option String
  pub kind : Option String
  pub created_by : ℕ
  pub lines : List TxnLineInput
  pub reverses_id : Option ℕ
  pub number : Option Text
  pub tax_links : List TaxLink

pub record CreatedTransaction : Type 0 where
  pub id : ℕ
  pub kind : String
  pub number : Option Text

pub data Error : Type 0 where
  unbalanced : ℕ → ℕ → Error
  period_closed : ℕ → ℕ → Error
  hard_closed : ℕ → ℕ → Error
  self_approval : Error
  not_pending : Error
  ledger_not_found : Error
  unknown_account : ℕ → Error
  wrong_ledger : ℕ → Error
  unknown_cost_center : ℕ → Error
  unknown_project : ℕ → Error
  duplicate_number : ℕ → Text → Error
  missing_fx_rate : FxError → Error
  -- `Db`: a constraint or a trigger of the schema refused the statement
  check_violation : Error
  unique_violation : Error
  append_only_violation : Error

-- A row of `transactions`.
pub record Txn : Type 0 where
  pub id : ℕ
  pub ledger_id : ℕ
  pub txn_date : ℕ
  pub description : String
  pub payee : Option String
  pub reference : Option String
  pub currency : String
  pub kind : String
  pub created_by : ℕ
  pub reverses_id : Option ℕ
  pub number : Option Text

-- A row of `postings`; `amount` is the magnitude, and the direction has the sign.
pub record Posting : Type 0 where
  pub id : ℕ
  pub transaction_id : ℕ
  pub account_id : ℕ
  pub amount : ℕ
  pub direction : Direction
  pub memo : Option String
  pub foreign_amount : Option ℕ
  pub foreign_currency : Option String
  pub cost_center_id : Option ℕ
  pub project_id : Option ℕ

pub record PostingTax : Type 0 where
  pub posting_id : ℕ
  pub tax_rate_id : ℕ
  pub tax_amount : ℤ
  pub base_amount : ℤ

pub data ApprovalStatus : Type 0 where
  pending approved rejected : ApprovalStatus

-- A row of `journal_approvals`.
pub record Approval : Type 0 where
  pub txn_id : ℕ
  pub ledger_id : ℕ
  pub maker : ℕ
  pub checker : Option ℕ
  pub status : ApprovalStatus
  pub amount : ℕ

-- A call of `audit::log`, and one of `events::emit`.
pub record AuditCall : Type 0 where
  pub ledger_id : ℕ
  pub actor : ℕ
  pub action : String
  pub txn_id : ℕ

pub record Emitted : Type 0 where
  pub ledger_id : ℕ
  pub event_type : String
  pub transaction_id : ℕ
  pub number : Option Text

pub record Db : Type 0 where
  pub ledgers : List Ledger
  pub accounts : List Scoped
  pub cost_centers : List Scoped
  pub projects : List Scoped
  pub closed_periods : List ClosedPeriod
  pub fx_rates : List FxRate
  pub transactions : List Txn
  pub postings : List Posting
  pub posting_taxes : List PostingTax
  pub approvals : List Approval
  pub audit : List AuditCall
  pub events : List Emitted
  -- Whether the trigger `trg_posting_balance` is enabled, which the service itself disables.
  pub trigger_enabled : Bool
