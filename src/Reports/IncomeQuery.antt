-- ===== src/Reports/IncomeQuery.antt =====
-- The queries of `src/reports/income_statement.rs`.
use openaccounting.Prelude.{
  ℕ, String, Bool, true, ◌&&◌, not, some, none, List, [], ◌∷◌, ◌==◌, str_eq, if◌then◌else◌,
}
use openaccounting.Prelude.Int.{ℤ}
use openaccounting.Prelude.Tables.{select, exists}
use openaccounting.Prelude.Sums.{order_by}
use openaccounting.Prelude.Texts.{Text}
use openaccounting.Posting.Data.{Posting, Db}
use openaccounting.Reports.Data.{
  Account, DimensionFilter, empty, is_active, postings_of, accounts_of,
}
use openaccounting.Reports.BalanceSheet.{negated}
use openaccounting.Reports.TrialBalance.{is_unassigned}
use openaccounting.Reports.Income.{
  ReportBasis, accrual, cash, IncomeRow, UnassignedTotals, IncomeStatementResult, is_temporary,
  is_in_period, net_of, statement,
}

-- `is_cash_name` is `LOWER(name) LIKE '%cash%' OR LOWER(name) LIKE '%bank%'` in the database, and
-- `before` is `ORDER BY a.type, a.subtype, a.name`.
module _ (is_cash_name : Text → Bool) (before : Account → Account → Bool) where
  -- `peer_is_cash`: another posting of the transaction is on an account of such a name.
  unfoldable pub peer_is_cash : List Posting → List Account → Posting → Bool
  peer_is_cash ps accounts p =
      exists
        (λ (p2 : Posting).
          p2.transaction_id == p.transaction_id
          && not (p2.id == p.id)
          && exists (λ (a2 : Account). a2.id == p2.account_id && is_cash_name a2.name) accounts)
        ps

  -- The rows that the inner joins leave of one account.
  abbrev pub period_postings : Db → ℕ → ℕ → DimensionFilter → ℕ → List Posting
  period_postings db from to f account =
      select (is_in_period db.transactions from to) (postings_of f account db.postings)

  -- GROUP BY: an account without such a row is in no group.
  abbrev pub group : Db → List Account → Account → List Posting → List IncomeRow → List IncomeRow
  group db accounts a [] rest = rest
  group db accounts a (p ∷ ps) rest =
      record {
        account = a;
        accrual_raw_net = net_of (p ∷ ps);
        cash_raw_net = net_of (select (peer_is_cash db.postings accounts) (p ∷ ps));
      }
      ∷ rest

  unfoldable pub income_rows :
      Db → List Account → ℕ → ℕ → DimensionFilter → List Account → List IncomeRow
  income_rows db accounts from to f [] = []
  income_rows db accounts from to f (a ∷ as') =
      group db accounts a (period_postings db from to f a.id)
        (income_rows db accounts from to f as')

  -- One group of the query of `unassigned_totals`: the postings on the accounts of one type.
  abbrev unassigned_net : Db → List Account → ℕ → ℕ → ℕ → ReportBasis → DimensionFilter → String → ℤ
  unassigned_net db accounts ledger from to basis f ty = net_of (
      select
        (λ p.
          is_in_period db.transactions from to p
          && is_unassigned f p
          && exists
              (λ (a : Account).
                a.id == p.account_id && a.ledger_id == ledger && str_eq a.type_str ty)
              accounts
          && elim basis [ accrual ↦ true | cash ↦ peer_is_cash db.postings accounts p ])
        db.postings)

  unfoldable pub unassigned_totals :
      Db → List Account → ℕ → ℕ → ℕ → ReportBasis → DimensionFilter → UnassignedTotals
  unassigned_totals db accounts ledger from to basis f = record {
    revenue = negated (unassigned_net db accounts ledger from to basis f "INCOME");
    expense = unassigned_net db accounts ledger from to basis f "EXPENSE";
  }

  unfoldable pub build_income_statement_filtered :
      Db → List Account → ℕ → ℕ → ℕ → ReportBasis → DimensionFilter → IncomeStatementResult
  build_income_statement_filtered db accounts ledger from to basis f =
      statement basis
        (income_rows db accounts from to f
          (order_by before (select is_temporary (accounts_of ledger accounts))))
        (if is_active f then some (unassigned_totals db accounts ledger from to basis f) else none)

  unfoldable pub build_income_statement :
      Db → List Account → ℕ → ℕ → ℕ → ReportBasis → IncomeStatementResult
  build_income_statement db accounts ledger from to basis =
      build_income_statement_filtered db accounts ledger from to basis empty
