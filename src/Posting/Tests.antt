-- ===== src/Posting/Tests.antt =====
-- The theorems about the posting service at the runs of Posting/Runs.antt.
use openaccounting.Prelude.{◌≤◌, ◌<◌, some, List, [], ◌∷◌, ◌++◌, ◌≡◌, ◌≢◌, ◌⊎◌, refl, length, All}
use openaccounting.Prelude.Int.{pos, negsuc}
use openaccounting.Prelude.Results.{ok, err}
use openaccounting.Prelude.Texts.{text_eq, show, show_padded}
use openaccounting.Posting.Data.{Posting, Txn, not_pending, ApprovalStatus, Db}
use openaccounting.Posting.Checks
use openaccounting.Posting.Checks.{
  closed_through, max_through, max_year, check_open, check_accounts, needs_approval, journal_total,
  has_number, in_scope,
}
use openaccounting.Posting.Write
use openaccounting.Posting.Create
use openaccounting.Posting.Create.{create, create_draft, plan}
use openaccounting.Posting.Journal.{approve_journal, reject_journal, txn_by}
use openaccounting.Posting.Balance.{IsBalanced}
use openaccounting.Posting.History.{
  start, next, creates, approves, History-IsBalanced, create_after_close,
}
use openaccounting.Posting.Approvals.{Decided, approve_journal-Decided, approve_journal_once}
use openaccounting.Posting.Bypass.{MustBeApproved, create-gate}
use openaccounting.Posting.Numbers.{delete_draft-blocks_numbering}
use openaccounting.Posting.Legs.{IsLeg, create-IsLeg}
use openaccounting.Posting.Runs.{
  calendar, jan_1, books, request, ids, after, value, nothing_made, rent, rent_ok, held, held_ok,
  held_books, ledger_1, two_drafts, deleted, deleted_ok, approved_rent, approved_rent_ok,
}

abbrev posted_books : Db
posted_books = after books rent

History-IsBalanced_example : IsBalanced (after held_books approved_rent).postings
History-IsBalanced_example =
    History-IsBalanced
      (next (next start (creates (ids 8) (request 3 5999999) (value nothing_made held) held_ok))
        (approves 1 8 4 approved_rent_ok))
      (λ t. refl)

create-IsLeg_example :
    (rows : List Posting) × (posted_books.postings ≡ books.postings ++ rows)
    × (length rows ≡ length (request 3 999999).lines)
    × (2 ≤ length rows)
    × All (IsLeg books 1 (value nothing_made rent).id) rows
create-IsLeg_example =
    create-IsLeg calendar (ids 7) (request 3 999999) books (value nothing_made rent) posted_books
      rent_ok

create_after_close_example : 739489 < jan_1
unfolding closed_through max_through
create_after_close_example =
    create_after_close calendar (ids 7) (request 3 999999) books (value nothing_made rent)
      posted_books 739489 rent_ok refl

create-gate_example :
    (MustBeApproved "standard" ledger_1 (pos 6000000 ∷ negsuc 5999999 ∷ [])
      × ((value nothing_made held).kind ≡ "pending"))
    ⊎ ((MustBeApproved "standard" ledger_1 (pos 6000000 ∷ negsuc 5999999 ∷ []) → ⊥)
        × ((value nothing_made held).kind ≡ "standard"))
unfolding Checks.effective_amounts Checks.ledger_by
create-gate_example =
    create-gate calendar (ids 8) (request 3 5999999) books (value nothing_made held) held_books
      (pos 6000000 ∷ negsuc 5999999 ∷ []) ledger_1 held_ok refl refl

approve_journal-Decided_example :
    Decided 1 8 4 ApprovalStatus.approved held_books (after held_books approved_rent)
    × ((t : Txn)
        → txn_by 1 8 held_books ≡ some t
        → txn_by 1 8 (after held_books approved_rent) ≡ some (record t { kind = "standard" }))
approve_journal-Decided_example =
    approve_journal-Decided 1 8 4 held_books (after held_books approved_rent) approved_rent_ok

approve_journal_once_example :
    (approve_journal 1 8 5 (after held_books approved_rent) ≡ err not_pending)
    × (reject_journal 1 8 5 (after held_books approved_rent) ≡ err not_pending)
approve_journal_once_example =
    approve_journal_once 1 8 4 5 held_books (after held_books approved_rent) approved_rent_ok

delete_draft-blocks_numbering_example :
    create calendar (ids 13) (request 3 999999) (after two_drafts deleted)
    ≢ ok (value nothing_made rent, posted_books)
unfolding create_draft Create.create_with_kind plan Create.check_period Create.apply
    Checks.effective_amounts Checks.check_balance Checks.tally Checks.ledger_by
    Checks.check_accounts Checks.check_dimensions Checks.resolve_number Checks.user_number
    Checks.format_number Checks.journal_total Checks.needs_approval Checks.over_threshold
    Write.insert_transaction Write.is_kind Write.transaction_row Write.posting_rows
    Write.posting_row Write.tax_rows text_eq show show_padded
delete_draft-blocks_numbering_example =
    delete_draft-blocks_numbering calendar 1 2026 9 3 two_drafts (after two_drafts deleted) (ids 13)
      (request 3 999999) (value nothing_made rent) posted_books deleted_ok refl refl refl refl refl
