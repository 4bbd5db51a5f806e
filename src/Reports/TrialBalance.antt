-- ===== src/Reports/TrialBalance.antt =====
-- `src/reports/trial_balance.rs`.
use openaccounting.Prelude.{
  ℕ, String, Bool, true, false, ◌&&◌, ◌||◌, Option, none, some, List, [], ◌∷◌, ◌++◌, map, leb, ◌==◌,
  str_eq, if◌then◌else◌,
}
use openaccounting.Prelude.Int.{ℤ, pos, ◌+ℤ◌, ◌-ℤ◌, leb_ℤ, eqb_ℤ}
use openaccounting.Prelude.Tables.{select, exists}
use openaccounting.Prelude.Sums.{sum, order_by}
use openaccounting.Prelude.Texts.{Text}
use openaccounting.Posting.Data.{Txn, Posting, Db}
use openaccounting.Reports.Data.{
  Account, AccountNet, DimensionFilter, empty, is_some, is_active, is_posted, debit_amount,
  credit_amount, account_net, accounts_of,
}

pub record TrialBalanceRow : Type 0 where
  pub account_id : ℕ
  pub account_name : Text
  pub account_type : String
  pub debit : ℤ
  pub credit : ℤ

pub record TrialBalanceResult : Type 0 where
  pub rows : List TrialBalanceRow
  pub total_debit : ℤ
  pub total_credit : ℤ
  pub unassigned : Option (ℤ × ℤ)

-- `"ASSET" | "EXPENSE"`, the accounts whose balance is a debit
abbrev pub is_debit_normal : String → Bool
is_debit_normal ty = str_eq ty "ASSET" || str_eq ty "EXPENSE"

-- `Decimal::max`
abbrev pub max_ℤ : ℤ → ℤ → ℤ
max_ℤ a b = if leb_ℤ a b then b else a

abbrev pub columns : String → ℤ → ℤ × ℤ
columns ty net =
    if is_debit_normal ty then (max_ℤ net (pos 0), pos 0) else (pos 0, max_ℤ (pos 0 -ℤ net) (pos 0))

-- The accumulators of the loop over the rows.
pub record Totals : Type 0 where
  pub out_rows : List TrialBalanceRow
  pub total_dr : ℤ
  pub total_cr : ℤ

unfoldable pub add_row : AccountNet → Totals → Totals
add_row n acc = if eqb_ℤ n.net (pos 0) then acc else record {
  out_rows =
      acc.out_rows
      ++ record {
        account_id = n.account.id;
        account_name = n.account.name;
        account_type = n.account.type_str;
        debit = (columns n.account.type_str n.net).0;
        credit = (columns n.account.type_str n.net).1;
      }
        ∷ [];
  total_dr = acc.total_dr +ℤ (columns n.account.type_str n.net).0;
  total_cr = acc.total_cr +ℤ (columns n.account.type_str n.net).1;
}

unfoldable pub add_rows : List AccountNet → Totals → Totals
add_rows [] acc = acc
add_rows (n ∷ ns) acc = add_rows ns (add_row n acc)

-- `JOIN transactions t …` drops a posting without a posted transaction up to the date.
abbrev is_reported : Db → ℕ → Posting → Bool
is_reported db as_of p =
    exists (λ (t : Txn). t.id == p.transaction_id && leb t.txn_date as_of && is_posted t)
      db.transactions

abbrev pub is_unassigned : DimensionFilter → Posting → Bool
is_unassigned f p =
    (is_some f.cost_center_id && not_some p.cost_center_id)
    || (is_some f.project_id && not_some p.project_id)
  where
    not_some : Option ℕ → Bool
    not_some none = true
    not_some (some x) = false

abbrev pub unassigned_postings : Db → List Account → ℕ → ℕ → DimensionFilter → List Posting
unassigned_postings db accounts ledger as_of f =
    select
      (λ p.
        is_reported db as_of p
        && exists (λ (a : Account). a.id == p.account_id && a.ledger_id == ledger) accounts
        && is_unassigned f p)
      db.postings

unfoldable pub unassigned_sums : Db → List Account → ℕ → ℕ → DimensionFilter → ℤ × ℤ
unassigned_sums db accounts ledger as_of f = (
  pos (sum debit_amount (unassigned_postings db accounts ledger as_of f)),
  pos (sum credit_amount (unassigned_postings db accounts ledger as_of f)),
)

module _ (before : Account → Account → Bool) where
  -- The rows of the query; `before` is the order of `ORDER BY a.type, a.name` in the database.
  unfoldable pub net_rows : Db → List Account → ℕ → ℕ → DimensionFilter → List AccountNet
  net_rows db accounts ledger as_of f =
      map (account_net db as_of f) (order_by before (accounts_of ledger accounts))

  unfoldable pub build_trial_balance_filtered :
      Db → List Account → ℕ → ℕ → DimensionFilter → TrialBalanceResult
  build_trial_balance_filtered db accounts ledger as_of f =
      let out =
        add_rows (net_rows db accounts ledger as_of f)
          (record { out_rows = []; total_dr = pos 0; total_cr = pos 0 }) in
      record {
        rows = out.out_rows;
        total_debit = out.total_dr;
        total_credit = out.total_cr;
        unassigned =
            if is_active f then some (unassigned_sums db accounts ledger as_of f) else none;
      }

  unfoldable pub build_trial_balance : Db → List Account → ℕ → ℕ → TrialBalanceResult
  build_trial_balance db accounts ledger as_of =
      build_trial_balance_filtered db accounts ledger as_of empty
