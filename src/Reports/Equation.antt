-- ===== src/Reports/Equation.antt =====
-- Assets are liabilities plus equity: how the totals of the balance sheet are related.
use openaccounting.Prelude.{
  ℕ, String, Bool, false, List, [], ◌∷◌, map, ◌≡◌, refl, arith, str_eq, if◌then◌else◌, ◌==◌, All,
  Bool-cases, inl, inr, ◌∙◌, sym,
}
use openaccounting.Prelude.Int.{ℤ, pos, ◌+ℤ◌, int_laws, parts}
use openaccounting.Prelude.Tables.{select}
use openaccounting.Prelude.Sums.{
  sum_ℤ, sum_ℤ-map, sum_ℤ_same, sum_ℤ-select, sum_ℤ-order_by, order_by,
}
use openaccounting.Prelude.Foreign.{Env}
use openaccounting.Posting.Data.{Db}
use openaccounting.Posting.History.{History}
use openaccounting.Reports.Data.{Account, AccountNet, empty, account_net, accounts_of}
use openaccounting.Reports.BalanceSheet.{
  is_permanent, Sections, asset_subtypes, liability_subtypes, negated, sheet_rows,
  build_balance_sheet,
}
use openaccounting.Reports.Sections.{section_amount, add_sections-total, add_equity-total_eq}
use openaccounting.Reports.Split.{IsTyped, equity_amount, earned, unlisted, pointwise}
use openaccounting.Reports.LedgerBalance.{IsKeyed, IsLedgerBalanced, History-IsLedgerBalanced}
use openaccounting.Reports.GrandTotal.{scoped, nets_zero}

module _ (before : Account → Account → Bool) (db : Db) (as' : List Account) (l as_of : ℕ) where
  -- A sum over the accounts of the ledger.
  abbrev pub over_ledger : (AccountNet → ℤ) → ℤ
  over_ledger f = sum_ℤ (λ a. f (account_net db as_of empty a)) (accounts_of l as')

  sheet_rows-sum :
      (f : AccountNet → ℤ)
      → ((n : AccountNet) → is_permanent n.account ≡ false → f n ≡ pos 0)
      → sum_ℤ f (sheet_rows before db as' l as_of) ≡ over_ledger f
  unfolding sheet_rows account_net
  sheet_rows-sum f none_left =
      let kept = select is_permanent (accounts_of l as') in
      sum_ℤ-map f (account_net db as_of empty) (order_by before kept)
      ∙ sum_ℤ-order_by (λ a. f (account_net db as_of empty a)) before kept
      ∙ sum_ℤ-select (λ a. f (account_net db as_of empty a)) is_permanent (accounts_of l as')
      ∙ sum_ℤ_same (λ a. if is_permanent a then f (account_net db as_of empty a) else pos 0)
          (λ a. f (account_net db as_of empty a)) (accounts_of l as')
          (λ a. elim (Bool-cases (is_permanent a)) [
            | inl here ↦ rw here refl
            | inr gone ↦ rw gone (sym (none_left (account_net db as_of empty a) gone))
          ])

  -- The parts of the accounts of the ledger add up as those of one account do.
  accounts_of-split :
      (rows : List Account)
      → All IsTyped rows
      → sum_ℤ
            (λ a. section_amount (λ x. x) "ASSET" asset_subtypes (account_net db as_of empty a))
            (accounts_of l rows)
          +ℤ sum_ℤ (λ a. unlisted (account_net db as_of empty a)) (accounts_of l rows)
        ≡ ((sum_ℤ
                (λ a.
                  section_amount negated "LIABILITY" liability_subtypes
                    (account_net db as_of empty a))
                (accounts_of l rows)
              +ℤ sum_ℤ (λ a. equity_amount (account_net db as_of empty a)) (accounts_of l rows))
            +ℤ sum_ℤ (λ a. earned (account_net db as_of empty a)) (accounts_of l rows))
          +ℤ sum_ℤ (λ a. (account_net db as_of empty a).net) (accounts_of l rows)
  unfolding account_net
  accounts_of-split [] h = omega int_laws
  accounts_of-split (a ∷ rows) h = elim (Bool-cases (a.ledger_id == l)) [
    | inr other ↦ rw other (accounts_of-split rows h.1)
    | inl here ↦ rw here (
        omega (
          int_laws,
          parts (pointwise (account_net db as_of empty a) h.0),
          parts (accounts_of-split rows h.1),
        ))
  ]

section_amount_zero :
    (sign : ℤ → ℤ) (ty : String) (ss : List (String × String)) (n : AccountNet)
    → str_eq n.account.type_str ty ≡ false
    → section_amount sign ty ss n ≡ pos 0
section_amount_zero sign ty [] n h = refl
section_amount_zero sign ty (s ∷ ss) n h =
    rw h (omega (int_laws, parts (section_amount_zero sign ty ss n h)))

-- The equation of any books that balance.
build_balance_sheet-IsSplit :
    (before : Account → Account → Bool) (db : Db) (as' : List Account) (l as_of : ℕ)
    (net_income : ℤ)
    → All IsTyped as'
    → IsKeyed (map scoped as')
    → IsLedgerBalanced l (map scoped as') db.postings
    → ((build_balance_sheet before db as' l as_of net_income).total_assets
          +ℤ over_ledger before db as' l as_of unlisted)
        +ℤ net_income
      ≡ (build_balance_sheet before db as' l as_of net_income).total_liab_equity
        +ℤ over_ledger before db as' l as_of earned
unfolding build_balance_sheet
build_balance_sheet-IsSplit before db as' l as_of net_income typed k b =
    let rows = sheet_rows before db as' l as_of in
    let start : Sections = record { sections = []; total = pos 0 } in
    let summed = sheet_rows-sum before db as' l as_of in
    omega (
      int_laws,
      parts (add_sections-total (λ x. x) "ASSET" rows asset_subtypes start),
      parts (add_sections-total negated "LIABILITY" rows liability_subtypes start),
      parts (add_equity-total_eq rows (record { equity = []; total_eq = pos 0 })),
      parts (
          summed (section_amount (λ x. x) "ASSET" asset_subtypes)
            (λ n h. section_amount_zero (λ x. x) "ASSET" asset_subtypes n (ground (arith, h)))),
      parts (
          summed (section_amount negated "LIABILITY" liability_subtypes) (λ n h.
            section_amount_zero negated "LIABILITY" liability_subtypes n (ground (arith, h)))),
      parts (summed equity_amount (λ n h. ground (arith, h))),
      parts (accounts_of-split before db as' l as_of as' typed),
      parts (sum_ℤ-order_by (λ a. (account_net db as_of empty a).net) before (accounts_of l as')),
      parts (nets_zero before db as' l as_of k b),
    )

-- If the identifiers of the accounts are unique, their types are those of the schema, and the
-- postings on the accounts of a ledger balanced at first, then in its balance sheet after any
-- sequence of successful calls of the posting service, at any date and in any order of the rows,
-- the assets, with the net income that the sheet is given and the net movement of the asset and
-- liability accounts of a subtype in no section, are the liabilities and equity with what the
-- income and expense accounts have earned.
pub build_balance_sheet-equation :
    (env : Env) (before : Account → Account → Bool) (db db' : Db) (as' : List Account) (l as_of : ℕ)
    (net_income : ℤ)
    → History env db db'
    → db.accounts ≡ map scoped as'
    → IsKeyed db.accounts
    → All IsTyped as'
    → IsLedgerBalanced l db.accounts db.postings
    → ((build_balance_sheet before db' as' l as_of net_income).total_assets
          +ℤ over_ledger before db' as' l as_of unlisted)
        +ℤ net_income
      ≡ (build_balance_sheet before db' as' l as_of net_income).total_liab_equity
        +ℤ over_ledger before db' as' l as_of earned
build_balance_sheet-equation env before db db' as' l as_of net_income h same k typed b =
    build_balance_sheet-IsSplit before db' as' l as_of net_income typed (rw (sym same) k)
      (rw (sym same) (History-IsLedgerBalanced l h k b).1)
