-- ===== src/Posting/Create.antt =====
-- `PostingService::create_with_kind`, `create` and `create_draft`. An error rolls the database
-- back, so a write is planned as a whole and applied only when nothing refuses it.
use openaccounting.Prelude.{
  ℕ, String, Bool, true, false, none, some, List, [], ◌∷◌, ◌++◌, ltb, ◌==◌, if◌then◌else◌, length,
}
use openaccounting.Prelude.Tables.{exists}
use openaccounting.Prelude.Results.{Result, ok, ◌>>=◌, ◌>>◌, fail_if, ok_or}
use openaccounting.Prelude.Foreign.{Env}
use openaccounting.Posting.Data.{
  NewTransaction, CreatedTransaction, Error, unbalanced, ledger_not_found, Txn, Posting, PostingTax,
  Approval, ApprovalStatus, Db,
}
use openaccounting.Posting.Checks.{
  ledger_by, effective_amounts, check_balance, check_open, check_accounts, check_dimensions,
  resolve_number, journal_total, needs_approval, unwrap_or,
}
use openaccounting.Posting.Write.{insert_transaction, posting_rows, tax_rows}

-- What a successful call writes.
pub record Plan : Type 0 where
  pub txn : Txn
  pub postings : List Posting
  pub taxes : List PostingTax
  pub is_pending : Bool
  pub total : ℕ

-- The identifiers that the inserts will be given.
pub record Ids : Type 0 where
  pub txn : ℕ
  pub posting : ℕ → ℕ

abbrev pub requested_kind : NewTransaction → String
requested_kind new = unwrap_or new.kind "standard"

unfoldable pub check_period : Env → Db → NewTransaction → Bool → Result Error (Unit {0})
check_period env db new true = ok tt
check_period env db new false = check_open env db new.ledger_id new.txn_date

-- The body of `create_with_kind` up to `tx.commit()`.
unfoldable pub plan : Env → Ids → NewTransaction → Bool → Db → Result Error Plan
plan env ids new is_draft db = do
  fail_if (ltb (length new.lines) 2) (unbalanced 0 0)
  amounts ← effective_amounts env db new
  check_balance amounts
  ledger ← ok_or (ledger_by new.ledger_id db) ledger_not_found
  check_period env db new is_draft
  check_accounts db new.ledger_id new.lines
  check_dimensions db new.ledger_id new.lines
  number ← resolve_number env db new
  let total = journal_total amounts
  let is_pending = needs_approval db is_draft (requested_kind new) new.ledger_id total
  txn ←
      insert_transaction env db ids.txn ledger
        (if is_pending then "pending" else requested_kind new) number new
  postings ← posting_rows ids.posting 0 ids.txn new.lines amounts
  taxes ← tax_rows postings db.posting_taxes new.tax_links
  ok (record {
    txn = txn;
    postings = postings;
    taxes = taxes;
    is_pending = is_pending;
    total = total;
  })

-- ON CONFLICT (txn_id) DO NOTHING
abbrev pub add_approval : Plan → List Approval → List Approval
add_approval p rows =
    if exists (λ (a : Approval). a.txn_id == p.txn.id) rows
    then rows
    else rows
      ++ record {
        txn_id = p.txn.id;
        ledger_id = p.txn.ledger_id;
        maker = p.txn.created_by;
        checker = none;
        status = ApprovalStatus.pending;
        amount = p.total;
      }
        ∷ []

-- The commit, and what is written after it. The transaction's `ALTER TABLE postings DISABLE TRIGGER`
-- is committed with it, and nothing enables the trigger again.
unfoldable pub apply : Plan → Bool → Db → Db
apply p is_draft db = record db {
  transactions = db.transactions ++ p.txn ∷ [];
  postings = db.postings ++ p.postings;
  posting_taxes = p.taxes;
  trigger_enabled = false;
  approvals = if p.is_pending then add_approval p db.approvals else db.approvals;
  audit =
      if is_draft
      then db.audit
      else db.audit
        ++ record {
          ledger_id = p.txn.ledger_id;
          actor = p.txn.created_by;
          action = if p.is_pending then "submit_pending" else "create";
          txn_id = p.txn.id;
        }
          ∷ [];
  events =
      if is_draft
      then db.events
      else db.events
        ++ record {
          ledger_id = p.txn.ledger_id;
          event_type = "transaction.posted";
          transaction_id = p.txn.id;
          number = p.txn.number;
        }
          ∷ [];
}

unfoldable pub create_with_kind :
    Env → Ids → NewTransaction → Bool → Db → Result Error (CreatedTransaction × Db)
unfolding apply
create_with_kind env ids new is_draft db = plan env ids new is_draft db >>= λ p.
    ok (record { id = p.txn.id; kind = p.txn.kind; number = p.txn.number }, apply p is_draft db)

unfoldable pub create : Env → Ids → NewTransaction → Db → Result Error (CreatedTransaction × Db)
create env ids new db = create_with_kind env ids new false db

unfoldable pub create_draft :
    Env → Ids → NewTransaction → Db → Result Error (CreatedTransaction × Db)
create_draft env ids new db = create_with_kind env ids (record new { kind = some "draft" }) true db
