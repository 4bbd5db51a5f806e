-- ===== src/Reports/Tests.antt =====
-- The theorems about the reports at a small ledger, and what its reports show.
use openaccounting.Prelude.{ℕ, ◌+◌, String, Bool, false, none, List, [], ◌∷◌, ◌≡◌, refl, arith, leb}
use openaccounting.Prelude.Int.{ℤ, pos, negsuc, ◌+ℤ◌, ◌-ℤ◌}
use openaccounting.Prelude.Sums.{sum, sum_ℤ}
use openaccounting.Prelude.Texts.{Text}
use openaccounting.Posting.Data.{debit, credit, Txn, Posting, Db}
use openaccounting.Posting.Balance.{IsBalanced}
use openaccounting.Posting.History.{start, next, creates}
use openaccounting.Posting.Runs.{
  calendar, jan_1, books, request, ids, after, value, nothing_made, rent, rent_ok,
}
use openaccounting.Reports.Data.{Account, empty, is_active, account_net, raw_net, left_join}
use openaccounting.Reports.TrialBalance.{net_rows, build_trial_balance}
use openaccounting.Reports.TrialTotals.{abnormal, build_trial_balance-totals}
use openaccounting.Reports.BalanceSheet.{
  add_sections, push_equity, add_equity, sheet_rows, build_balance_sheet,
}
use openaccounting.Reports.Split.{earned, unlisted}
use openaccounting.Reports.Equation.{over_ledger, build_balance_sheet-equation}
use openaccounting.Reports.Income.{accrual, make_accounts, excluded_totals, statement}
use openaccounting.Reports.IncomeQuery.{
  income_rows, build_income_statement_filtered, build_income_statement,
}
use openaccounting.Reports.Statements.{
  build_income_statement-net_income, build_balance_sheet-balanced,
}
use openaccounting.Reports.GeneralLedger.{
  JournalRow, entry_debit, journal_rows, build_general_ledger,
}
use openaccounting.Reports.Period.{build_general_ledger-balanced}

abbrev account : ℕ → ℕ → String → String → Account
account id ledger ty st = record {
  id = id;
  ledger_id = ledger;
  name = [];
  type_str = ty;
  subtype_str = st;
}

abbrev chart : List Account
chart =
    account 10 1 "ASSET" "CURRENT_ASSET"
    ∷ account 11 1 "INCOME" "OPERATING_INCOME"
    ∷ account 20 2 "ASSET" "CURRENT_ASSET"
    ∷ []

abbrev by_id : Account → Account → Bool
by_id a b = leb a.id b.id

abbrev by_posting : JournalRow → JournalRow → Bool
by_posting r s = leb r.p.id s.p.id

abbrev no_cash : Text → Bool
no_cash name = false

abbrev transfer : ℕ → ℕ → String → Txn
transfer id date kind = record {
  id = id;
  ledger_id = 1;
  txn_date = date;
  description = "";
  payee = none;
  reference = none;
  currency = "EUR";
  kind = kind;
  created_by = 3;
  reverses_id = none;
  number = none;
}

abbrev leg : ℕ → ℕ → ℕ → ℤ → Posting
leg id txn account x = record {
  id = id;
  transaction_id = txn;
  account_id = account;
  amount = elim x [ pos n ↦ n | negsuc n ↦ n + 1 ];
  direction = elim x [ pos n ↦ debit | negsuc n ↦ credit ];
  memo = none;
  foreign_amount = none;
  foreign_currency = none;
  cost_center_id = none;
  project_id = none;
}

-- Two sales of 5 and of 7; the second is of the kind and the date that a test gives it.
abbrev sales : ℕ → String → Db
sales date kind = record books {
  transactions = transfer 1 100 "standard" ∷ transfer 2 date kind ∷ [];
  postings =
      leg 1 1 10 (pos 5) ∷ leg 2 1 11 (negsuc 4) ∷ leg 3 2 10 (pos 7) ∷ leg 4 2 11 (negsuc 6) ∷ [];
}

build_trial_balance-totals_example :
    (build_trial_balance by_id (after books rent) chart 1 jan_1).total_debit
      +ℤ sum_ℤ abnormal (net_rows by_id (after books rent) chart 1 jan_1 empty)
    ≡ (build_trial_balance by_id (after books rent) chart 1 jan_1).total_credit
build_trial_balance-totals_example =
    build_trial_balance-totals calendar by_id books (after books rent) chart 1 jan_1
      (next start (creates (ids 7) (request 3 999999) (value nothing_made rent) rent_ok)) refl
      (refl, (refl, (refl, tt))) (λ t. refl)

build_balance_sheet-equation_example :
    ((build_balance_sheet by_id (after books rent) chart 1 jan_1 (pos 0)).total_assets
        +ℤ over_ledger by_id (after books rent) chart 1 jan_1 unlisted)
      +ℤ pos 0
    ≡ (build_balance_sheet by_id (after books rent) chart 1 jan_1 (pos 0)).total_liab_equity
      +ℤ over_ledger by_id (after books rent) chart 1 jan_1 earned
build_balance_sheet-equation_example =
    build_balance_sheet-equation calendar by_id books (after books rent) chart 1 jan_1 (pos 0)
      (next start (creates (ids 7) (request 3 999999) (value nothing_made rent) rent_ok)) refl
      (refl, (refl, (refl, tt))) (refl, (refl, (refl, tt))) (λ t. refl)

build_income_statement-net_income_example :
    (build_income_statement no_cash by_id (sales 200 "standard") chart 1 0 150 accrual).net_income
    ≡ pos 5
unfolding ◌+ℤ◌ ◌-ℤ◌
build_income_statement-net_income_example =
    build_income_statement-net_income no_cash by_id (sales 200 "standard") chart 1 0 150
      (refl, (refl, (refl, tt)))

sales-IsBalanced : (date : ℕ) (kind : String) → IsBalanced (sales date kind).postings
sales-IsBalanced date kind t = ground arith

build_balance_sheet-balanced_example :
    (build_balance_sheet by_id
        (sales 200 "standard")
        chart
        1
        300
        (build_income_statement no_cash by_id
          (sales 200 "standard")
          chart
          1
          0
          300
          accrual).net_income).total_assets
      +ℤ over_ledger by_id (sales 200 "standard") chart 1 300 unlisted
    ≡ pos 12
unfolding ◌+ℤ◌ ◌-ℤ◌ build_balance_sheet sheet_rows add_sections push_equity add_equity account_net
    raw_net left_join build_income_statement build_income_statement_filtered income_rows statement
    make_accounts excluded_totals is_active
build_balance_sheet-balanced_example =
    build_balance_sheet-balanced calendar no_cash by_id (sales 200 "standard")
      (sales 200 "standard") chart 1 0 300 start refl (refl, (refl, (refl, tt)))
      (refl, (refl, (refl, tt))) (refl, (refl, (refl, tt))) (sales-IsBalanced 200 "standard")
      (refl, (refl, (refl, (refl, tt))))

-- The entries of the period are those of the first sale.
build_general_ledger-balanced_example :
    sum entry_debit (build_general_ledger by_posting (sales 200 "standard") chart 1 0 150 none).0
    ≡ 5
unfolding build_general_ledger journal_rows
build_general_ledger-balanced_example =
    build_general_ledger-balanced calendar by_posting (sales 200 "standard") (sales 200 "standard")
      chart 1 0 150 start (sales-IsBalanced 200 "standard") (refl, (refl, (refl, (refl, tt))))
