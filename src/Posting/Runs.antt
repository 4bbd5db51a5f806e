-- ===== src/Posting/Runs.antt =====
-- Runs of the posting service on a small ledger.
use openaccounting.Prelude.{
  ℕ, suc, ◌+◌, ◌*◌, ◌/◌, ◌^◌, ◌≤◌, true, false, none, some, [], ◌∷◌, ◌≡◌, refl, arith, ◌↔◌,
}
use openaccounting.Prelude.Int.{ℤ, pos, negsuc}
use openaccounting.Prelude.Results.{Result, ok, err}
use openaccounting.Prelude.Texts.{text_eq, show, show_padded}
use openaccounting.Prelude.Foreign.{Env, IsCalendar}
use openaccounting.Posting.Data.{
  TxnLineInput, NewTransaction, CreatedTransaction, Error, Ledger, Db,
}
use openaccounting.Posting.Checks
use openaccounting.Posting.Checks.{
  closed_through, max_through, max_year, effective_amounts, check_open,
}
use openaccounting.Posting.Write
use openaccounting.Posting.Create
use openaccounting.Posting.Create.{Ids, create, create_draft, plan, requested_kind}
use openaccounting.Posting.Journal
use openaccounting.Posting.Journal.{
  approve_journal, reject_journal, delete_draft, post_draft, check_editable, txn_by,
}

-- Years of 365 days.
abbrev pub calendar : Env
calendar = record {
  year_of = λ d. d / 365;
  december_31 = λ y. some (y * 365 + 364);
  product = λ a b. record { mantissa = a.mantissa * b.mantissa; scale = a.scale + b.scale };
  reciprocal = λ r. record { mantissa = 10 ^ (r.scale + 12) / r.mantissa; scale = 12 };
}

calendar_bounds : (y d e : ℕ) → calendar.december_31 y ≡ some e → (d ≤ e) ↔ (calendar.year_of d ≤ y)
calendar_bounds y d e h = (λ k. ground arith, λ k. ground arith)

pub calendar-IsCalendar : IsCalendar calendar
calendar-IsCalendar = record { december_31_bounds = calendar_bounds }

abbrev pub jan_1 : ℕ
jan_1 = 739490

abbrev pub ledger_1 : Ledger
ledger_1 = record {
  id = 1;
  base_currency = "EUR";
  append_only = false;
  approval_threshold = some (pos 5000000);
}

-- Ledger 1 holds journals of 500 and more for approval; it is closed through the year before.
abbrev pub books : Db
books = record {
  ledgers =
      ledger_1
      ∷ record { id = 2; base_currency = "USD"; append_only = true; approval_threshold = none }
      ∷ [];
  accounts =
      record { id = 10; ledger_id = 1 }
      ∷ record { id = 11; ledger_id = 1 }
      ∷ record { id = 20; ledger_id = 2 }
      ∷ [];
  cost_centers = [];
  projects = [];
  closed_periods =
      record { ledger_id = 1; period_year = some 2024; closed_through = some 739489 } ∷ [];
  fx_rates =
      record {
        base_currency = "USD";
        quote_currency = "EUR";
        rate = 900000000000;
        rate_date = 739000;
        is_manual = false;
      }
      ∷ [];
  transactions = [];
  postings = [];
  posting_taxes = [];
  trigger_enabled = true;
  approvals = [];
  audit = [];
  events = [];
}

abbrev pub line : ℕ → ℤ → TxnLineInput
line account amount = record {
  account_id = account;
  signed_amount = amount;
  memo = none;
  tax_rate_id = none;
  foreign = none;
  cost_center_id = none;
  project_id = none;
}

abbrev pub request : ℕ → ℕ → NewTransaction
request user amount = record {
  ledger_id = 1;
  txn_date = jan_1;
  description = "rent";
  payee = none;
  reference = none;
  kind = none;
  created_by = user;
  lines = line 10 (pos (suc amount)) ∷ line 11 (negsuc amount) ∷ [];
  reverses_id = none;
  number = none;
  tax_links = [];
}

abbrev pub ids : ℕ → Ids
ids n = record { txn = n; posting = λ i. n * 10 + i }

-- The database and the value of a call, or `d` and `a` where it failed.
abbrev pub after : {A : Type 0} → Db → Result Error (A × Db) → Db
after d (ok (a, db)) = db
after d (err e) = d

abbrev pub value : {A : Type 0} → A → Result Error (A × Db) → A
value a (ok (b, db)) = b
value a (err e) = a

abbrev pub nothing_made : CreatedTransaction
nothing_made = record { id = 0; kind = ""; number = none }

abbrev pub rent : Result Error (CreatedTransaction × Db)
rent = create calendar (ids 7) (request 3 999999) books

pub rent_ok : rent ≡ ok (value nothing_made rent, after books rent)
unfolding create create_draft Create.create_with_kind plan Create.check_period Create.apply
    Checks.effective_amounts Checks.check_balance Checks.tally Checks.ledger_by check_open
    closed_through max_through max_year Checks.is_closed Checks.check_accounts
    Checks.check_dimensions Checks.resolve_number Checks.user_number Checks.format_number
    Checks.journal_total Checks.needs_approval Checks.over_threshold Write.insert_transaction
    Write.is_kind Write.transaction_row Write.posting_rows Write.posting_row Write.tax_rows text_eq
    show show_padded
rent_ok = refl

-- 600 is over the threshold.
abbrev pub held : Result Error (CreatedTransaction × Db)
held = create calendar (ids 8) (request 3 5999999) books

pub held_ok : held ≡ ok (value nothing_made held, after books held)
unfolding create create_draft Create.create_with_kind plan Create.check_period Create.apply
    Checks.effective_amounts Checks.check_balance Checks.tally Checks.ledger_by check_open
    closed_through max_through max_year Checks.is_closed Checks.check_accounts
    Checks.check_dimensions Checks.resolve_number Checks.user_number Checks.format_number
    Checks.journal_total Checks.needs_approval Checks.over_threshold Write.insert_transaction
    Write.is_kind Write.transaction_row Write.posting_rows Write.posting_row Write.tax_rows text_eq
    show show_padded
held_ok = refl

abbrev pub held_books : Db
held_books = after books held

abbrev pub approved_rent : Result Error (Unit {0} × Db)
approved_rent = approve_journal 1 8 4 held_books

pub approved_rent_ok : approved_rent ≡ ok (tt, after held_books approved_rent)
unfolding create create_draft Create.create_with_kind plan Create.check_period Create.apply
    Checks.effective_amounts Checks.check_balance Checks.tally Checks.ledger_by check_open
    closed_through max_through max_year Checks.is_closed Checks.check_accounts
    Checks.check_dimensions Checks.resolve_number Checks.user_number Checks.format_number
    Checks.journal_total Checks.needs_approval Checks.over_threshold Write.insert_transaction
    Write.is_kind Write.transaction_row Write.posting_rows Write.posting_row Write.tax_rows text_eq
    show show_padded post_draft delete_draft approve_journal reject_journal Journal.check_decision
    Journal.approval_by check_editable Journal.is_append_only txn_by Journal.remove_txn
approved_rent_ok = refl

abbrev pub rejected_rent : Result Error (Unit {0} × Db)
rejected_rent = reject_journal 1 8 4 held_books

pub rejected_rent_ok : rejected_rent ≡ ok (tt, after held_books rejected_rent)
unfolding create create_draft Create.create_with_kind plan Create.check_period Create.apply
    Checks.effective_amounts Checks.check_balance Checks.tally Checks.ledger_by check_open
    closed_through max_through max_year Checks.is_closed Checks.check_accounts
    Checks.check_dimensions Checks.resolve_number Checks.user_number Checks.format_number
    Checks.journal_total Checks.needs_approval Checks.over_threshold Write.insert_transaction
    Write.is_kind Write.transaction_row Write.posting_rows Write.posting_row Write.tax_rows text_eq
    show show_padded post_draft delete_draft approve_journal reject_journal Journal.check_decision
    Journal.approval_by check_editable Journal.is_append_only txn_by Journal.remove_txn
rejected_rent_ok = refl

abbrev pub draft : Result Error (CreatedTransaction × Db)
draft = create_draft calendar (ids 9) (request 3 5999999) books

pub draft_ok : draft ≡ ok (value nothing_made draft, after books draft)
unfolding create create_draft Create.create_with_kind plan Create.check_period Create.apply
    Checks.effective_amounts Checks.check_balance Checks.tally Checks.ledger_by check_open
    closed_through max_through max_year Checks.is_closed Checks.check_accounts
    Checks.check_dimensions Checks.resolve_number Checks.user_number Checks.format_number
    Checks.journal_total Checks.needs_approval Checks.over_threshold Write.insert_transaction
    Write.is_kind Write.transaction_row Write.posting_rows Write.posting_row Write.tax_rows text_eq
    show show_padded
draft_ok = refl

abbrev pub second_draft : Result Error (CreatedTransaction × Db)
second_draft = create_draft calendar (ids 12) (request 3 5999999) (after books draft)

pub second_draft_ok :
    second_draft ≡ ok (value nothing_made second_draft, after (after books draft) second_draft)
unfolding create create_draft Create.create_with_kind plan Create.check_period Create.apply
    Checks.effective_amounts Checks.check_balance Checks.tally Checks.ledger_by check_open
    closed_through max_through max_year Checks.is_closed Checks.check_accounts
    Checks.check_dimensions Checks.resolve_number Checks.user_number Checks.format_number
    Checks.journal_total Checks.needs_approval Checks.over_threshold Write.insert_transaction
    Write.is_kind Write.transaction_row Write.posting_rows Write.posting_row Write.tax_rows text_eq
    show show_padded
second_draft_ok = refl

abbrev pub two_drafts : Db
two_drafts = after (after books draft) second_draft

abbrev pub deleted : Result Error (Unit {0} × Db)
deleted = delete_draft 1 9 3 two_drafts

pub deleted_ok : deleted ≡ ok (tt, after two_drafts deleted)
unfolding create create_draft Create.create_with_kind plan Create.check_period Create.apply
    Checks.effective_amounts Checks.check_balance Checks.tally Checks.ledger_by check_open
    closed_through max_through max_year Checks.is_closed Checks.check_accounts
    Checks.check_dimensions Checks.resolve_number Checks.user_number Checks.format_number
    Checks.journal_total Checks.needs_approval Checks.over_threshold Write.insert_transaction
    Write.is_kind Write.transaction_row Write.posting_rows Write.posting_row Write.tax_rows text_eq
    show show_padded post_draft delete_draft approve_journal reject_journal Journal.check_decision
    Journal.approval_by check_editable Journal.is_append_only txn_by Journal.remove_txn
deleted_ok = refl

abbrev pub legacy_books : Db
legacy_books = record books {
  closed_periods = record { ledger_id = 1; period_year = some 2025; closed_through = none } ∷ [];
}

abbrev pub legacy_rent : Result Error (CreatedTransaction × Db)
legacy_rent = create calendar (ids 7) (request 3 999999) legacy_books

pub legacy_rent_ok :
    legacy_rent ≡ ok (value nothing_made legacy_rent, after legacy_books legacy_rent)
unfolding create create_draft Create.create_with_kind plan Create.check_period Create.apply
    Checks.effective_amounts Checks.check_balance Checks.tally Checks.ledger_by check_open
    closed_through max_through max_year Checks.is_closed Checks.check_accounts
    Checks.check_dimensions Checks.resolve_number Checks.user_number Checks.format_number
    Checks.journal_total Checks.needs_approval Checks.over_threshold Write.insert_transaction
    Write.is_kind Write.transaction_row Write.posting_rows Write.posting_row Write.tax_rows text_eq
    show show_padded
legacy_rent_ok = refl
