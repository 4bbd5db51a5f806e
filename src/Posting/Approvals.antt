-- ===== src/Posting/Approvals.antt =====
-- Maker-checker: who may decide a pending journal, how often, and what a decision leaves behind.
use openaccounting.Prelude.{
  ℕ, List, [], ◌∷◌, ◌≡◌, ◌≢◌, arith, ◌==◌, inl, inr, some, Option-cases, String, ◌&&◌,
}
use openaccounting.Prelude.Tables.{find, update}
use openaccounting.Prelude.Results.{ok, err, Result-cases}
use openaccounting.Posting.Data.{not_pending, Db, Txn, Approval, ApprovalStatus, ClosedPeriod}
use openaccounting.Posting.Checks.{ledger_by}
use openaccounting.Posting.Journal.{
  in_ledger, txn_by, check_editable, is_append_only, approval_by, check_decision, approve_journal,
  reject_journal,
}

-- Reading a row back after the row with its key was rewritten and its key kept.
find-update_key :
    (ledger txn checker : ℕ) (s : ApprovalStatus) (rows : List Approval) (a : Approval)
    → find (λ (r : Approval). r.txn_id == txn && r.ledger_id == ledger) rows ≡ some a
    → find
        (λ (r : Approval). r.txn_id == txn && r.ledger_id == ledger)
        (update (λ r. r.txn_id == txn) (λ r. record r { status = s; checker = some checker }) rows)
      ≡ some (record a { status = s; checker = some checker })
find-update_key ledger txn checker s [] a h = cc
find-update_key ledger txn checker s (r ∷ rows) a h =
    ground (arith, find-update_key ledger txn checker s rows a)

find-update_kind :
    (ledger txn : ℕ) (k : String) (rows : List Txn) (t : Txn)
    → find (in_ledger ledger txn) rows ≡ some t
    → find (in_ledger ledger txn) (update (in_ledger ledger txn) (λ r. record r { kind = k }) rows)
      ≡ some (record t { kind = k })
find-update_kind ledger txn k [] t h = cc
find-update_kind ledger txn k (r ∷ rows) t h = ground (arith, find-update_kind ledger txn k rows t)

-- What a decision of `checker` with the outcome `s` leaves: the approval row was pending and made
-- by somebody else, and now it has the outcome and the checker.
abbrev pub Decided : ℕ → ℕ → ℕ → ApprovalStatus → Db → Db → Type 0
Decided ledger txn checker s db db' =
    (a : Approval) × (approval_by ledger txn db ≡ some a)
    × (a.status ≡ ApprovalStatus.pending)
    × (a.maker ≢ checker)
    × (approval_by ledger txn db' ≡ some (record a { status = s; checker = some checker }))

check_decision_facts :
    (ledger txn checker : ℕ) (db : Db) (a : Approval)
    → check_decision ledger txn checker db ≡ ok a
    → (approval_by ledger txn db ≡ some a)
      × (a.status ≡ ApprovalStatus.pending)
      × (a.maker ≢ checker)
unfolding check_decision
check_decision_facts ledger txn checker db a h = elim (Option-cases (approval_by ledger txn db)) [
  | inl missing ↦ absurd (ground arith)
  | inr (r, e) ↦ (ground arith, ground arith, ground arith)
]

-- If `approve_journal` succeeds, the journal had a pending approval row made by another user than
-- the checker, the row is now approved by the checker, and the transaction, where it is found in
-- the ledger, is found there afterwards with the kind "standard".
pub approve_journal-Decided :
    (ledger txn checker : ℕ) (db db' : Db)
    → approve_journal ledger txn checker db ≡ ok (tt, db')
    → Decided ledger txn checker ApprovalStatus.approved db db'
      × ((t : Txn)
          → txn_by ledger txn db ≡ some t
          → txn_by ledger txn db' ≡ some (record t { kind = "standard" }))
unfolding approve_journal approval_by txn_by
approve_journal-Decided ledger txn checker db db' h =
    elim (Result-cases (check_decision ledger txn checker db)) [
      | inr (_, e) ↦ absurd (ground arith)
      | inl (a, e) ↦
          let (found, open', other) = check_decision_facts ledger txn checker db a e in
          (
            (
              a,
              found,
              open',
              other,
              ground (
                arith,
                find-update_key ledger txn checker ApprovalStatus.approved db.approvals a found,
              ),
            ),
            λ t here. ground (arith, find-update_kind ledger txn "standard" db.transactions t here),
          )
    ]

-- If `reject_journal` succeeds, the journal had a pending approval row made by another user than
-- the checker, and the row is now rejected by the checker.
pub reject_journal-Decided :
    (ledger txn checker : ℕ) (db db' : Db)
    → reject_journal ledger txn checker db ≡ ok (tt, db')
    → Decided ledger txn checker ApprovalStatus.rejected db db'
unfolding reject_journal approval_by
reject_journal-Decided ledger txn checker db db' h =
    elim (Result-cases (check_decision ledger txn checker db)) [
      | inr (_, e) ↦ absurd (ground arith)
      | inl (a, e) ↦
          let (found, open', other) = check_decision_facts ledger txn checker db a e in
          (
            a,
            found,
            open',
            other,
            ground (
              arith,
              find-update_key ledger txn checker ApprovalStatus.rejected db.approvals a found,
            ),
          )
    ]

-- A journal that was approved cannot be decided again: whoever approves or rejects it next is told
-- that it is not pending.
pub approve_journal_once :
    (ledger txn checker next : ℕ) (db db' : Db)
    → approve_journal ledger txn checker db ≡ ok (tt, db')
    → (approve_journal ledger txn next db' ≡ err not_pending)
      × (reject_journal ledger txn next db' ≡ err not_pending)
unfolding approve_journal reject_journal check_decision
approve_journal_once ledger txn checker next db db' h =
    let ((a, _, _, _, now), _) = approve_journal-Decided ledger txn checker db db' h in
    (rw now, rw now)

-- If a journal can be approved, it can be approved with the same effect whatever the close
-- watermark of its ledger is: `approve_journal` posts into closed periods too.
pub approve_journal_ignores_close :
    (ledger txn checker : ℕ) (db db' : Db) (periods : List ClosedPeriod)
    → approve_journal ledger txn checker db ≡ ok (tt, db')
    → approve_journal ledger txn checker (record db { closed_periods = periods })
      ≡ ok (tt, record db' { closed_periods = periods })
unfolding approve_journal check_decision check_editable is_append_only ledger_by approval_by
approve_journal_ignores_close ledger txn checker db db' periods h = ground arith
