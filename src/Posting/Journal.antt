-- ===== src/Posting/Journal.antt =====
-- Drafts and journals that wait for approval: `post_draft`, `delete_draft`, `approve_journal` and
-- `reject_journal`. A trigger refuses every UPDATE and DELETE of a transaction whose ledger is
-- append-only.
use openaccounting.Prelude.{
  ℕ, String, Bool, true, false, ◌&&◌, not, Option, none, some, List, [], ◌∷◌, ◌++◌, ◌==◌, str_eq,
}
use openaccounting.Prelude.Tables.{find, update, delete, exists}
use openaccounting.Prelude.Results.{Result, ok, ◌>>=◌, ◌>>◌, fail_if, ok_or}
use openaccounting.Prelude.Foreign.{Env}
use openaccounting.Posting.Data.{
  CreatedTransaction, Error, unbalanced, self_approval, not_pending, ledger_not_found,
  append_only_violation, Txn, Posting, PostingTax, Approval, ApprovalStatus, Db,
}
use openaccounting.Posting.Checks.{ledger_by, check_open}

abbrev pub in_ledger : ℕ → ℕ → Txn → Bool
in_ledger ledger id t = t.id == id && t.ledger_id == ledger

unfoldable pub txn_by : ℕ → ℕ → Db → Option Txn
txn_by ledger id db = find (in_ledger ledger id) db.transactions

unfoldable pub is_append_only : ℕ → Db → Bool
unfolding ledger_by
is_append_only ledger db = elim (ledger_by ledger db) [ none ↦ false | some l ↦ l.append_only ]

-- The trigger on the rows that an UPDATE or DELETE … WHERE p touches.
unfoldable pub check_editable : (Txn → Bool) → Db → Result Error (Unit {0})
unfolding is_append_only
check_editable p db =
    fail_if (exists (λ t. p t && is_append_only t.ledger_id db) db.transactions)
      append_only_violation

abbrev pub set_kind : String → (Txn → Bool) → Db → Db
set_kind k p db = record db { transactions = update p (λ t. record t { kind = k }) db.transactions }

abbrev pub logged : ℕ → ℕ → String → ℕ → Db → Db
logged ledger actor action txn db = record db {
  audit =
      db.audit ++ record { ledger_id = ledger; actor = actor; action = action; txn_id = txn } ∷ [];
}

unfoldable pub post_draft : Env → ℕ → ℕ → ℕ → Db → Result Error (CreatedTransaction × Db)
unfolding txn_by
post_draft env ledger txn actor db = do
  row ← ok_or (ledger_by ledger db) ledger_not_found
  draft ← ok_or (txn_by ledger txn db) ledger_not_found
  fail_if (not (str_eq draft.kind "draft")) (unbalanced 0 0)
  check_open env db ledger draft.txn_date
  check_editable (λ t. t.id == txn) db
  ok (
    record { id = txn; kind = "standard"; number = none },
    logged ledger actor "promote" txn (set_kind "standard" (λ t. t.id == txn) db),
  )

abbrev pub is_tax_of : List Posting → ℕ → PostingTax → Bool
is_tax_of postings txn k =
    exists (λ (p : Posting). p.id == k.posting_id && p.transaction_id == txn) postings

-- DELETE FROM postings, then FROM transactions; the foreign keys cascade to the tax links and to
-- the approval row.
unfoldable pub remove_txn : ℕ → Db → Db
remove_txn txn db = record db {
  transactions = delete (λ t. t.id == txn) db.transactions;
  postings = delete (λ p. p.transaction_id == txn) db.postings;
  posting_taxes = delete (is_tax_of db.postings txn) db.posting_taxes;
  approvals = delete (λ a. a.txn_id == txn) db.approvals;
}

unfoldable pub delete_draft : ℕ → ℕ → ℕ → Db → Result Error (Unit {0} × Db)
unfolding txn_by remove_txn
delete_draft ledger txn actor db = do
  draft ← ok_or (txn_by ledger txn db) ledger_not_found
  fail_if (not (str_eq draft.kind "draft")) (unbalanced 0 0)
  check_editable (λ t. t.id == txn) db
  ok (tt, logged ledger actor "delete" txn (remove_txn txn db))

unfoldable pub approval_by : ℕ → ℕ → Db → Option Approval
approval_by ledger txn db = find (λ a. a.txn_id == txn && a.ledger_id == ledger) db.approvals

abbrev pub is_pending : ApprovalStatus → Bool
is_pending ApprovalStatus.pending = true
is_pending ApprovalStatus.approved = false
is_pending ApprovalStatus.rejected = false

abbrev pub decide : ApprovalStatus → ℕ → ℕ → Db → Db
decide s txn checker db = record db {
  approvals =
      update (λ a. a.txn_id == txn) (λ a. record a { status = s; checker = some checker })
        db.approvals;
}

-- The tests that approving and rejecting share: a pending row, and another user than its maker.
unfoldable pub check_decision : ℕ → ℕ → ℕ → Db → Result Error Approval
unfolding approval_by
check_decision ledger txn checker db = do
  row ← ok_or (approval_by ledger txn db) not_pending
  fail_if (not (is_pending row.status)) not_pending
  fail_if (row.maker == checker) self_approval
  ok row

unfoldable pub approve_journal : ℕ → ℕ → ℕ → Db → Result Error (Unit {0} × Db)
approve_journal ledger txn checker db = do
  row ← check_decision ledger txn checker db
  check_editable (in_ledger ledger txn) db
  ok (
    tt,
    logged ledger checker "approve" txn (
        decide ApprovalStatus.approved txn checker (set_kind "standard" (in_ledger ledger txn) db)),
  )

unfoldable pub reject_journal : ℕ → ℕ → ℕ → Db → Result Error (Unit {0} × Db)
reject_journal ledger txn checker db = do
  row ← check_decision ledger txn checker db
  check_editable (λ t. t.id == txn) db
  ok (
    tt,
    logged ledger checker "reject" txn
        (decide ApprovalStatus.rejected txn checker (set_kind "draft" (λ t. t.id == txn) db)),
  )
