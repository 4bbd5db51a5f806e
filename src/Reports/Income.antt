-- ===== src/Reports/Income.antt =====
-- `src/reports/income_statement.rs`, and the basis of `src/reports/mod.rs`.
use openaccounting.Prelude.{
  ℕ, String, Bool, true, false, ◌&&◌, ◌||◌, not, Option, some, none, List, [], ◌∷◌, ◌++◌, map, leb,
  ◌==◌, str_eq, if◌then◌else◌,
}
use openaccounting.Prelude.Int.{ℤ, pos, sub_ℕ, ◌+ℤ◌, ◌-ℤ◌, eqb_ℤ}
use openaccounting.Prelude.Tables.{select, exists}
use openaccounting.Prelude.Sums.{sum, sum_ℤ}
use openaccounting.Prelude.Results.{Result, ok, err}
use openaccounting.Posting.Data.{Txn, Posting}
use openaccounting.Reports.Data.{Account, AccountTotal, is_posted, debit_amount, credit_amount}
use openaccounting.Reports.BalanceSheet.{negated, totals_sum}

pub data ReportBasis : Type 0 where
  accrual cash : ReportBasis

abbrev pub as_str : ReportBasis → String
as_str accrual = "accrual"
as_str cash = "cash"

-- The query value or the stored string; anything else is a validation error, which names it.
unfoldable pub parse : String → Result String ReportBasis
parse s =
    if str_eq s "accrual" || str_eq s ""
    then ok accrual
    else if str_eq s "cash"
    then ok cash
    else err s

pub record IncomeRow : Type 0 where
  pub account : Account
  pub accrual_raw_net : ℤ
  pub cash_raw_net : ℤ

pub record IncomeStatementSection : Type 0 where
  pub label : String
  pub accounts : List AccountTotal
  pub total : ℤ

pub record ExcludedTotals : Type 0 where
  pub revenue : ℤ
  pub expense : ℤ

pub record UnassignedTotals : Type 0 where
  pub revenue : ℤ
  pub expense : ℤ

pub record IncomeStatementResult : Type 0 where
  pub basis : ReportBasis
  pub revenue : IncomeStatementSection
  pub cost_of_goods_sold : IncomeStatementSection
  pub gross_profit : ℤ
  pub operating_expenses : IncomeStatementSection
  pub operating_income : ℤ
  pub non_operating : Option IncomeStatementSection
  pub income_before_tax : ℤ
  pub tax_expense : Option IncomeStatementSection
  pub net_income : ℤ
  pub excluded : Option ExcludedTotals
  pub unassigned : Option UnassignedTotals

-- `a.type IN ('INCOME','EXPENSE')`
abbrev pub is_temporary : Account → Bool
is_temporary a = str_eq a.type_str "INCOME" || str_eq a.type_str "EXPENSE"

-- JOIN transactions t … t.txn_date BETWEEN $2 AND $3 AND t.kind NOT IN ('draft','pending')
abbrev pub is_in_period : List Txn → ℕ → ℕ → Posting → Bool
is_in_period ts from to p =
    exists
      (λ (t : Txn).
        t.id == p.transaction_id && leb from t.txn_date && leb t.txn_date to && is_posted t)
      ts

abbrev pub net_of : List Posting → ℤ
net_of ps = sub_ℕ (sum debit_amount ps) (sum credit_amount ps)

abbrev pub raw_net_for_basis : ReportBasis → IncomeRow → ℤ
raw_net_for_basis accrual r = r.accrual_raw_net
raw_net_for_basis cash r = r.cash_raw_net

abbrev pub is_income_row : String → String → IncomeRow → Bool
is_income_row ty subtype r = str_eq r.account.type_str ty && str_eq r.account.subtype_str subtype

abbrev pub signed_amount : ReportBasis → IncomeRow → ℤ
signed_amount basis r =
    if str_eq r.account.type_str "INCOME"
    then negated (raw_net_for_basis basis r)
    else raw_net_for_basis basis r

unfoldable pub make_accounts : ReportBasis → List IncomeRow → String → String → List AccountTotal
make_accounts basis rows ty subtype =
    select (λ (t : AccountTotal). not (eqb_ℤ t.amount (pos 0)))
      (map
        (λ (r : IncomeRow). record {
          account_id = r.account.id;
          account_name = r.account.name;
          account_type = r.account.subtype_str;
          amount = signed_amount basis r;
        })
        (select (is_income_row ty subtype) rows))

abbrev is_empty : List AccountTotal → Bool
is_empty [] = true
is_empty (t ∷ ts) = false

abbrev pub section : String → List AccountTotal → ℤ → IncomeStatementSection
section label accounts total = record { label = label; accounts = accounts; total = total }

-- The footer of a report on the cash basis: the accrual totals less the totals of the sections.
unfoldable pub excluded_totals : ReportBasis → List IncomeRow → ℤ → ℤ → Option ExcludedTotals
excluded_totals accrual rows revenue expense = none
excluded_totals cash rows revenue expense = some (record {
  revenue =
      sum_ℤ (λ (r : IncomeRow). negated r.accrual_raw_net)
        (select (is_income_row "INCOME" "OPERATING_INCOME") rows)
      -ℤ revenue;
  expense =
      sum_ℤ (λ (r : IncomeRow). r.accrual_raw_net)
        (select (λ (r : IncomeRow). str_eq r.account.type_str "EXPENSE") rows)
      -ℤ expense;
})

-- What `build_income_statement_filtered` computes from the rows of its query and the unassigned
-- totals.
unfoldable pub statement :
    ReportBasis → List IncomeRow → Option UnassignedTotals → IncomeStatementResult
statement basis rows unassigned =
    let revenue = make_accounts basis rows "INCOME" "OPERATING_INCOME" in
    let cogs = make_accounts basis rows "EXPENSE" "COST_OF_GOODS_SOLD" in
    let gross_profit = totals_sum revenue -ℤ totals_sum cogs in
    let opex = make_accounts basis rows "EXPENSE" "OPERATING_EXPENSE" in
    let operating_income = gross_profit -ℤ totals_sum opex in
    let non_op_income = make_accounts basis rows "INCOME" "NON_OPERATING_INCOME" in
    let non_op_expense = make_accounts basis rows "EXPENSE" "NON_OPERATING_EXPENSE" in
    let non_op_net = totals_sum non_op_income -ℤ totals_sum non_op_expense in
    let income_before_tax = operating_income +ℤ non_op_net in
    let tax = make_accounts basis rows "EXPENSE" "TAX_EXPENSE" in
    let tax_total = totals_sum tax in
    record {
      basis = basis;
      revenue = section "Revenue" revenue (totals_sum revenue);
      cost_of_goods_sold = section "Cost of Goods Sold" cogs (totals_sum cogs);
      gross_profit = gross_profit;
      operating_expenses = section "Operating Expenses" opex (totals_sum opex);
      operating_income = operating_income;
      non_operating =
          if not (eqb_ℤ non_op_net (pos 0))
            || not (is_empty non_op_income)
            || not (is_empty non_op_expense)
          then some (
              section "Non-Operating Income (Expense)" (non_op_income ++ non_op_expense) non_op_net)
          else none;
      income_before_tax = income_before_tax;
      tax_expense =
          if not (eqb_ℤ tax_total (pos 0))
          then some (section "Income Tax Expense" tax tax_total)
          else none;
      net_income = income_before_tax -ℤ tax_total;
      excluded =
          excluded_totals basis rows (totals_sum revenue)
            ((totals_sum cogs +ℤ totals_sum opex) +ℤ tax_total);
      unassigned = unassigned;
    }
