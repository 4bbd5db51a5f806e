-- ===== src/Claims/Data.antt =====
-- The tables that the handlers of claims read and write (`migrations/0001_init.sql`,
-- `migrations/0019_add_reimbursement.sql`, `0026`, `0027`), as far as the handlers read them.
-- Amounts are numbers of ten-thousandths (NUMERIC(20,4)), identifiers are numbers, dates are day
-- numbers.
use openaccounting.Prelude.{ℕ, String, Bool, Option, List}
use openaccounting.Prelude.Int.{ℤ}
use openaccounting.Prelude.Texts.{Text}
use openaccounting.Posting.Data.{Direction}

pub record Ledger : Type 0 where
  pub id : ℕ
  pub owner_id : ℕ
  pub base_currency : Text

pub record Member : Type 0 where
  pub ledger_id : ℕ
  pub user_id : ℕ
  pub role : String

pub record User : Type 0 where
  pub id : ℕ
  pub role : String

pub record Account : Type 0 where
  pub id : ℕ
  pub ledger_id : ℕ
  pub name : String
  pub kind : String
  pub subtype : String

-- A row of `reimbursement_approval_policies`.
pub record ApprovalPolicy : Type 0 where
  pub ledger_id : ℕ
  pub min_amount : ℕ
  pub approver_role : String
  pub level : ℕ

pub record CategoryCapConfig : Type 0 where
  pub category : String
  pub max_per_day : ℤ

pub record ReceiptRequiredConfig : Type 0 where
  pub min_amount : ℤ

pub record PerDiemConfig : Type 0 where
  pub destination : String
  pub daily_rate : ℤ

-- A JSON value, by what `serde_json::from_value` reads it as for each kind of policy.
pub record Config : Type 0 where
  pub as_category_cap : Option CategoryCapConfig
  pub as_receipt_required : Option ReceiptRequiredConfig
  pub as_per_diem : Option PerDiemConfig

-- A row of `reimbursement_policies`.
pub record PolicyRow : Type 0 where
  pub ledger_id : ℕ
  pub name : String
  pub kind : String
  pub config : Config
  pub severity : String
  pub is_active : Bool

pub record Claim : Type 0 where
  pub id : ℕ
  pub ledger_id : ℕ
  pub short_id : Text
  pub employee_id : ℕ
  pub employee_name : Text
  pub title : Text
  pub currency : Text
  pub status : String
  pub approved_by : Option ℕ
  pub rejected_reason : Option Text
  pub payout_account_id : Option ℕ

pub record Line : Type 0 where
  pub claim_id : ℕ
  pub txn_date : ℕ
  pub amount : ℕ
  pub gl_account_id : ℕ
  pub tax_amount : ℕ
  pub advance_amount : ℕ

-- A row of `reimbursement_approval_steps`.
pub record ApprovalStep : Type 0 where
  pub claim_id : ℕ
  pub level : ℕ
  pub approver_id : ℕ

pub record Event : Type 0 where
  pub claim_id : ℕ
  pub actor_id : ℕ
  pub event_type : String

pub record Txn : Type 0 where
  pub id : ℕ
  pub ledger_id : ℕ
  pub txn_date : ℕ
  pub payee : Text
  pub reference : Text
  pub currency : Text
  pub created_by : ℕ
  pub created_at : ℕ

pub record Posting : Type 0 where
  pub transaction_id : ℕ
  pub account_id : ℕ
  pub amount : ℤ
  pub direction : Direction

-- The newest rows of a table come first.
pub record Db : Type 0 where
  pub ledgers : List Ledger
  pub members : List Member
  pub users : List User
  pub accounts : List Account
  pub approval_policies : List ApprovalPolicy
  pub policies : List PolicyRow
  pub claims : List Claim
  pub lines : List Line
  pub steps : List ApprovalStep
  pub events : List Event
  pub transactions : List Txn
  pub postings : List Posting
  -- Whether the trigger `trg_posting_balance` is enabled. `PostingService::create` and the
  -- transfers disable it (`ALTER TABLE`), and nothing enables it again.
  pub trigger_enabled : Bool

-- What the handlers call and this library does not define: `hex::encode` of an identifier's bytes,
-- `str::to_uppercase`, whether the lower case of a subtype contains "cash" or "bank", and the
-- reading of a decimal as an `f64` that is cut to an `i64`.
pub record Env : Type 0 where
  pub hex : ℕ → Text
  pub uppercase : Text → Text
  pub names_bank : String → Bool
  pub as_i64 : ℤ → ℤ
