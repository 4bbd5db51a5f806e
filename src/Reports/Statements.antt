-- ===== src/Reports/Statements.antt =====
-- The balance sheet that is drawn up with the net income of the income statement, as the handlers
-- of both do it.
use openaccounting.Prelude.{
  ℕ, Bool, true, ◌&&◌, List, [], ◌∷◌, map, ◌≡◌, refl, arith, if◌then◌else◌, ◌==◌, All, ◌∙◌,
}
use openaccounting.Prelude.Int.{ℤ, pos, ◌+ℤ◌, int_laws, parts}
use openaccounting.Prelude.Tables.{select}
use openaccounting.Prelude.Sums.{
  sum_ℤ, sum_ℤ_same, sum_ℤ-select, sum_ℤ-order_by, order_by, All-order_by, All-select,
  All-select-true,
}
use openaccounting.Prelude.Foreign.{Env}
use openaccounting.Prelude.Texts.{Text}
use openaccounting.Posting.Data.{Posting, Db}
use openaccounting.Posting.History.{History}
use openaccounting.Reports.Data.{Account, empty, account_net, accounts_of, is_in_filter}
use openaccounting.Reports.BalanceSheet.{negated, build_balance_sheet}
use openaccounting.Reports.Income.{accrual, IncomeRow, is_temporary, is_in_period, net_of}
use openaccounting.Reports.IncomeQuery.{
  period_postings, group, income_rows, build_income_statement_filtered, build_income_statement,
}
use openaccounting.Reports.NetIncome.{
  IsClassified, in_statement, statement-rows, in_statement-negated,
}
use openaccounting.Reports.Split.{IsTyped, earned, unlisted}
use openaccounting.Reports.Equation.{over_ledger, build_balance_sheet-equation}
use openaccounting.Reports.LedgerBalance.{IsKeyed, IsLedgerBalanced}
use openaccounting.Reports.GrandTotal.{scoped, account_net-net}

module _ (is_cash_name : Text → Bool) (before : Account → Account → Bool) (db : Db)
    (accounts : List Account) (from to : ℕ) where
  -- What an account has earned in the period.
  abbrev pub period_earned : Account → ℤ
  period_earned a = negated (net_of (period_postings is_cash_name before db from to empty a.id))

  group-sum :
      (a : Account) (ps : List Posting) (rest : List IncomeRow)
      → is_temporary a ≡ true
      → IsClassified a
      → sum_ℤ (in_statement accrual) (group is_cash_name before db accounts a ps rest)
        ≡ negated (net_of ps) +ℤ sum_ℤ (in_statement accrual) rest
  group-sum a [] rest t c = omega int_laws
  group-sum a (p ∷ ps) rest t c = rw (in_statement-negated _ t c) refl

  income_rows-sum :
      (as' : List Account)
      → All (λ a. is_temporary a ≡ true) as'
      → All IsClassified as'
      → sum_ℤ (in_statement accrual) (income_rows is_cash_name before db accounts from to empty as')
        ≡ sum_ℤ period_earned as'
  unfolding income_rows
  income_rows-sum [] t c = refl
  income_rows-sum (a ∷ as') t c = omega (
    int_laws,
    parts (
        group-sum a (period_postings is_cash_name before db from to empty a.id)
          (income_rows is_cash_name before db accounts from to empty as') t.0 c.0),
    parts (income_rows-sum as' t.1 c.1),
  )

-- If the subtypes of the accounts are those of the schema, the net income on the accrual basis is
-- what the income and expense accounts of the ledger have earned by the postings of the period
-- that belong to posted transactions.
pub build_income_statement-net_income :
    (is_cash_name : Text → Bool) (before : Account → Account → Bool) (db : Db)
    (accounts : List Account) (l from to : ℕ)
    → All IsClassified accounts
    → (build_income_statement is_cash_name before db accounts l from to accrual).net_income
      ≡ sum_ℤ
          (λ a.
            if is_temporary a
            then period_earned is_cash_name before db accounts from to a
            else pos 0)
          (accounts_of l accounts)
unfolding build_income_statement build_income_statement_filtered
build_income_statement-net_income is_cash_name before db accounts l from to c =
    let mine = accounts_of l accounts in
    let shown = select is_temporary mine in
    let earned_by = period_earned is_cash_name before db accounts from to in
    statement-rows accrual
      (income_rows is_cash_name before db accounts from to empty (order_by before shown)) _
    ∙ income_rows-sum is_cash_name before db accounts from to (order_by before shown)
        (All-order_by (λ a. is_temporary a ≡ true) before shown (All-select-true is_temporary mine))
        (All-order_by IsClassified before shown (
          All-select IsClassified is_temporary mine
            (All-select IsClassified (λ a. a.ledger_id == l) accounts c)))
    ∙ sum_ℤ-order_by earned_by before shown
    ∙ sum_ℤ-select earned_by is_temporary mine

-- A selection that keeps all of a table keeps all of each selection from it.
select_kept :
    (q r : Posting → Bool) (ps : List Posting)
    → All (λ p. q p ≡ true) ps
    → select q (select r ps) ≡ select r ps
select_kept q r [] h = refl
select_kept q r (p ∷ ps) h = ground (arith, h.0, select_kept q r ps h.1)

earned_in_period :
    (is_cash_name : Text → Bool) (before : Account → Account → Bool) (db : Db)
    (accounts : List Account) (l from to as_of : ℕ)
    → All (λ p. is_in_period db.transactions from to p ≡ true) db.postings
    → sum_ℤ
        (λ a.
          if is_temporary a then period_earned is_cash_name before db accounts from to a else pos 0)
        (accounts_of l accounts)
      ≡ over_ledger before db accounts l as_of earned
unfolding account_net
earned_in_period is_cash_name before db accounts l from to as_of current =
    sum_ℤ_same _ _ (accounts_of l accounts) (λ a.
      rw
        (
          select_kept (is_in_period db.transactions from to)
              (λ p. p.account_id == a.id && is_in_filter empty p) db.postings current,
          account_net-net db as_of empty a,
        )
        refl)

cancel_plus : {a b n e : ℤ} → a +ℤ n ≡ b +ℤ e → n ≡ e → a ≡ b
cancel_plus h same = omega (int_laws, parts h, parts same)

-- If the books of a ledger balanced at first, its accounts are as the schema wants them, and after
-- a sequence of successful calls of the posting service every posting belongs to a posted
-- transaction of the period of the income statement, then the balance sheet drawn up with the net
-- income of that statement has assets that equal liabilities and equity, but for the asset and
-- liability accounts whose subtype is in no section.
pub build_balance_sheet-balanced :
    (env : Env) (is_cash_name : Text → Bool) (before : Account → Account → Bool) (db db' : Db)
    (as' : List Account) (l from to : ℕ)
    → History env db db'
    → db.accounts ≡ map scoped as'
    → IsKeyed db.accounts
    → All IsTyped as'
    → All IsClassified as'
    → IsLedgerBalanced l db.accounts db.postings
    → All (λ p. is_in_period db'.transactions from to p ≡ true) db'.postings
    → (build_balance_sheet before db' as' l to
          (build_income_statement is_cash_name before db' as' l from to
            accrual).net_income).total_assets
        +ℤ over_ledger before db' as' l to unlisted
      ≡ (build_balance_sheet before db' as' l to
          (build_income_statement is_cash_name before db' as' l from to
            accrual).net_income).total_liab_equity
build_balance_sheet-balanced env is_cash_name before db db' as' l from to h same k typed c b
      current =
    cancel_plus (build_balance_sheet-equation env before db db' as' l to _ h same k typed b) (
      build_income_statement-net_income is_cash_name before db' as' l from to c
      ∙ earned_in_period is_cash_name before db' as' l from to to current)
