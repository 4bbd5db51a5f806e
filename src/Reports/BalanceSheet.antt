-- ===== src/Reports/BalanceSheet.antt =====
-- `src/reports/balance_sheet.rs`.
use openaccounting.Prelude.{
  ℕ, String, Bool, ◌&&◌, ◌||◌, not, List, [], ◌∷◌, ◌++◌, map, str_eq, if◌then◌else◌,
}
use openaccounting.Prelude.Int.{ℤ, pos, ◌+ℤ◌, ◌-ℤ◌, eqb_ℤ}
use openaccounting.Prelude.Tables.{select}
use openaccounting.Prelude.Sums.{sum_ℤ, order_by}
use openaccounting.Posting.Data.{Db}
use openaccounting.Reports.Data.{Account, AccountNet, AccountTotal, empty, account_net, accounts_of}

pub record BalanceSheetSection : Type 0 where
  pub label : String
  pub accounts : List AccountTotal
  pub total : ℤ

pub record BalanceSheetResult : Type 0 where
  pub assets : List BalanceSheetSection
  pub liabilities : List BalanceSheetSection
  pub equity : List AccountTotal
  pub net_income : ℤ
  pub total_assets : ℤ
  pub total_liabilities : ℤ
  pub total_equity : ℤ
  pub total_liab_equity : ℤ

-- `a.type IN ('ASSET','LIABILITY','EQUITY')`
abbrev pub is_permanent : Account → Bool
is_permanent a =
    str_eq a.type_str "ASSET" || str_eq a.type_str "LIABILITY" || str_eq a.type_str "EQUITY"

-- `.map(…).filter(|a| a.amount != Decimal::ZERO).collect()`, with the sign of the section
abbrev pub account_totals : (ℤ → ℤ) → List AccountNet → List AccountTotal
account_totals sign ns =
    select (λ (t : AccountTotal). not (eqb_ℤ t.amount (pos 0)))
      (map
        (λ (n : AccountNet). record {
          account_id = n.account.id;
          account_name = n.account.name;
          account_type = n.account.type_str;
          amount = sign n.net;
        })
        ns)

-- `accounts.iter().map(|a| a.amount).sum()`
abbrev pub totals_sum : List AccountTotal → ℤ
totals_sum ts = sum_ℤ (λ (t : AccountTotal). t.amount) ts

abbrev pub is_sort : String → String → AccountNet → Bool
is_sort ty subtype n = str_eq n.account.type_str ty && str_eq n.account.subtype_str subtype

-- The accumulators of the two section loops, and what one subtype adds to them.
pub record Sections : Type 0 where
  pub sections : List BalanceSheetSection
  pub total : ℤ

abbrev pub push_section : String → List AccountTotal → Sections → Sections
push_section label [] acc = acc
push_section label (t ∷ ts) acc = record {
  sections =
      acc.sections ++ record { label = label; accounts = t ∷ ts; total = totals_sum (t ∷ ts) } ∷ [];
  total = acc.total +ℤ totals_sum (t ∷ ts);
}

unfoldable pub add_sections :
    (ℤ → ℤ) → String → List AccountNet → List (String × String) → Sections → Sections
add_sections sign ty rows [] acc = acc
add_sections sign ty rows ((subtype, label) ∷ rest) acc =
    add_sections sign ty rows rest
      (push_section label (account_totals sign (select (is_sort ty subtype) rows)) acc)

abbrev pub asset_subtypes : List (String × String)
asset_subtypes =
    ("CURRENT_ASSET", "Current Assets")
    ∷ ("FIXED_ASSET", "Fixed Assets")
    ∷ ("INTANGIBLE_ASSET", "Intangible Assets")
    ∷ ("OTHER_ASSET", "Other Assets")
    ∷ []

abbrev pub liability_subtypes : List (String × String)
liability_subtypes =
    ("CURRENT_LIABILITY", "Current Liabilities")
    ∷ ("LONG_TERM_LIABILITY", "Long-Term Liabilities")
    ∷ []

abbrev pub negated : ℤ → ℤ
negated x = pos 0 -ℤ x

pub record EquityTotals : Type 0 where
  pub equity : List AccountTotal
  pub total_eq : ℤ

-- The loop over the equity accounts; the type of such a total is the subtype of the account.
unfoldable pub push_equity : AccountNet → EquityTotals → EquityTotals
push_equity n acc =
    if str_eq n.account.type_str "EQUITY"
    then if eqb_ℤ (negated n.net) (pos 0) then acc else record {
      equity =
          acc.equity
          ++ record {
            account_id = n.account.id;
            account_name = n.account.name;
            account_type = n.account.subtype_str;
            amount = negated n.net;
          }
            ∷ [];
      total_eq = acc.total_eq +ℤ negated n.net;
    }
    else acc

unfoldable pub add_equity : List AccountNet → EquityTotals → EquityTotals
add_equity [] acc = acc
add_equity (n ∷ ns) acc = add_equity ns (push_equity n acc)

module _ (before : Account → Account → Bool) where
  -- The rows of the query; `before` is `ORDER BY a.type, a.subtype, a.name`.
  unfoldable pub sheet_rows : Db → List Account → ℕ → ℕ → List AccountNet
  sheet_rows db accounts ledger as_of =
      map (account_net db as_of empty)
        (order_by before (select is_permanent (accounts_of ledger accounts)))

  unfoldable pub build_balance_sheet : Db → List Account → ℕ → ℕ → ℤ → BalanceSheetResult
  build_balance_sheet db accounts ledger as_of net_income =
      let rows = sheet_rows db accounts ledger as_of in
      let start : Sections = record { sections = []; total = pos 0 } in
      let assets = add_sections (λ x. x) "ASSET" rows asset_subtypes start in
      let liabilities = add_sections negated "LIABILITY" rows liability_subtypes start in
      let equity = add_equity rows (record { equity = []; total_eq = pos 0 }) in
      record {
        assets = assets.sections;
        liabilities = liabilities.sections;
        equity = equity.equity;
        net_income = net_income;
        total_assets = assets.total;
        total_liabilities = liabilities.total;
        total_equity = equity.total_eq;
        total_liab_equity = (liabilities.total +ℤ equity.total_eq) +ℤ net_income;
      }
