-- ===== src/Reports/NetIncome.antt =====
-- The net income of the income statement, and the balance sheet that is drawn up with it.
use openaccounting.Prelude.{
  ℕ, String, Option, true, ◌||◌, not, List, [], ◌∷◌, ◌≡◌, arith, str_eq, if◌then◌else◌, Bool-cases,
  inl, inr, ◌∙◌, eq_iff,
}
use openaccounting.Prelude.Int.{ℤ, pos, ◌+ℤ◌, ◌-ℤ◌, int_laws, parts}
use openaccounting.Prelude.Tables.{select}
use openaccounting.Prelude.Sums.{sum_ℤ, sum_ℤ-select}
use openaccounting.Prelude.Texts.{Text}
use openaccounting.Reports.Data.{Account, AccountTotal}
use openaccounting.Reports.BalanceSheet.{negated, totals_sum}
use openaccounting.Reports.Sections.{totals_sum_nonzero}
use openaccounting.Reports.Income.{
  ReportBasis, accrual, IncomeRow, UnassignedTotals, is_temporary, is_income_row, signed_amount,
  make_accounts, statement,
}

-- What a row adds to the accounts of one type and subtype.
abbrev row_in : ReportBasis → String → String → IncomeRow → ℤ
row_in basis ty subtype r = if is_income_row ty subtype r then signed_amount basis r else pos 0

abbrev income_total : ReportBasis → IncomeRow → AccountTotal
income_total basis r = record {
  account_id = r.account.id;
  account_name = r.account.name;
  account_type = r.account.subtype_str;
  amount = signed_amount basis r;
}

totals_sum-make_accounts :
    (basis : ReportBasis) (rows : List IncomeRow) (ty subtype : String)
    → totals_sum (make_accounts basis rows ty subtype) ≡ sum_ℤ (row_in basis ty subtype) rows
unfolding make_accounts
totals_sum-make_accounts basis rows ty subtype =
    totals_sum_nonzero (income_total basis) (select (is_income_row ty subtype) rows)
    ∙ sum_ℤ-select (signed_amount basis) (is_income_row ty subtype) rows

-- The part of `chk_account_subtype` for the income and expense accounts.
abbrev pub IsClassified : Account → Type 0
IsClassified a =
    (if str_eq a.type_str "INCOME"
      then str_eq a.subtype_str "OPERATING_INCOME" || str_eq a.subtype_str "NON_OPERATING_INCOME"
      else not (str_eq a.type_str "EXPENSE")
        || str_eq a.subtype_str "COST_OF_GOODS_SOLD"
        || str_eq a.subtype_str "OPERATING_EXPENSE"
        || str_eq a.subtype_str "NON_OPERATING_EXPENSE"
        || str_eq a.subtype_str "TAX_EXPENSE")
    ≡ true

-- What the six lines of the statement make of one row.
abbrev pub in_statement : ReportBasis → IncomeRow → ℤ
in_statement basis r =
    (((row_in basis "INCOME" "OPERATING_INCOME" r -ℤ row_in basis "EXPENSE" "COST_OF_GOODS_SOLD" r)
        -ℤ row_in basis "EXPENSE" "OPERATING_EXPENSE" r)
      +ℤ (row_in basis "INCOME" "NON_OPERATING_INCOME" r
          -ℤ row_in basis "EXPENSE" "NON_OPERATING_EXPENSE" r))
    -ℤ row_in basis "EXPENSE" "TAX_EXPENSE" r

pub statement-rows :
    (basis : ReportBasis) (rows : List IncomeRow) (u : Option UnassignedTotals)
    → (statement basis rows u).net_income ≡ sum_ℤ (in_statement basis) rows
unfolding statement
statement-rows basis rows u =
    let total = totals_sum-make_accounts basis rows in
    omega (
      int_laws,
      parts (total "INCOME" "OPERATING_INCOME"),
      parts (total "EXPENSE" "COST_OF_GOODS_SOLD"),
      parts (total "EXPENSE" "OPERATING_EXPENSE"),
      parts (total "INCOME" "NON_OPERATING_INCOME"),
      parts (total "EXPENSE" "NON_OPERATING_EXPENSE"),
      parts (total "EXPENSE" "TAX_EXPENSE"),
      parts (by_lines rows),
    )
  where
    by_lines :
        (rs : List IncomeRow)
        → sum_ℤ (in_statement basis) rs
          ≡ (((sum_ℤ (row_in basis "INCOME" "OPERATING_INCOME") rs
                  -ℤ sum_ℤ (row_in basis "EXPENSE" "COST_OF_GOODS_SOLD") rs)
                -ℤ sum_ℤ (row_in basis "EXPENSE" "OPERATING_EXPENSE") rs)
              +ℤ (sum_ℤ (row_in basis "INCOME" "NON_OPERATING_INCOME") rs
                  -ℤ sum_ℤ (row_in basis "EXPENSE" "NON_OPERATING_EXPENSE") rs))
            -ℤ sum_ℤ (row_in basis "EXPENSE" "TAX_EXPENSE") rs
    by_lines [] = omega int_laws
    by_lines (r ∷ rs) = omega (int_laws, parts (by_lines rs))

abbrev row_at : ℕ → ℕ → Text → String → String → ℤ → ℤ → IncomeRow
row_at id ledger name ty st x y = record {
  account = record { id = id; ledger_id = ledger; name = name; type_str = ty; subtype_str = st };
  accrual_raw_net = x;
  cash_raw_net = y;
}

income_line :
    (id ledger : ℕ) (name : Text) (st : String) (x y : ℤ)
    → IsClassified (row_at id ledger name "INCOME" st x y).account
    → in_statement accrual (row_at id ledger name "INCOME" st x y) ≡ negated x
income_line id ledger name st x y h = elim (Bool-cases (str_eq st "OPERATING_INCOME")) [
  | inl a ↦ rw ((eq_iff st "OPERATING_INCOME").0 a) (omega int_laws)
  | inr a ↦
      let e : str_eq st "NON_OPERATING_INCOME" ≡ true = ground (arith, h, a) in
      rw ((eq_iff st "NON_OPERATING_INCOME").0 e) (omega int_laws)
]

expense_line :
    (id ledger : ℕ) (name : Text) (st : String) (x y : ℤ)
    → IsClassified (row_at id ledger name "EXPENSE" st x y).account
    → in_statement accrual (row_at id ledger name "EXPENSE" st x y) ≡ negated x
expense_line id ledger name st x y h = elim (Bool-cases (str_eq st "COST_OF_GOODS_SOLD")) [
  | inl a ↦ rw ((eq_iff st "COST_OF_GOODS_SOLD").0 a) (omega int_laws)
  | inr a ↦ elim (Bool-cases (str_eq st "OPERATING_EXPENSE")) [
    | inl b ↦ rw ((eq_iff st "OPERATING_EXPENSE").0 b) (omega int_laws)
    | inr b ↦ elim (Bool-cases (str_eq st "NON_OPERATING_EXPENSE")) [
      | inl c ↦ rw ((eq_iff st "NON_OPERATING_EXPENSE").0 c) (omega int_laws)
      | inr c ↦
          let e : str_eq st "TAX_EXPENSE" ≡ true = ground (arith, h, a, b, c) in
          rw ((eq_iff st "TAX_EXPENSE").0 e) (omega int_laws)
    ]
  ]
]

statement_line :
    (id ledger : ℕ) (name : Text) (ty st : String) (x y : ℤ)
    → is_temporary (row_at id ledger name ty st x y).account ≡ true
    → IsClassified (row_at id ledger name ty st x y).account
    → in_statement accrual (row_at id ledger name ty st x y) ≡ negated x
statement_line id ledger name ty st x y t = elim (Bool-cases (str_eq ty "INCOME")) [
  | inl a ↦ rw ((eq_iff ty "INCOME").0 a) (income_line id ledger name st x y)
  | inr a ↦
      let e : str_eq ty "EXPENSE" ≡ true = ground (arith, t, a) in
      rw ((eq_iff ty "EXPENSE").0 e) (expense_line id ledger name st x y)
]

-- One account shows in exactly one line, with its sign.
pub in_statement-negated :
    (r : IncomeRow)
    → is_temporary r.account ≡ true
    → IsClassified r.account
    → in_statement accrual r ≡ negated r.accrual_raw_net
in_statement-negated r =
    statement_line r.account.id r.account.ledger_id r.account.name r.account.type_str
      r.account.subtype_str r.accrual_raw_net r.cash_raw_net
