-- ===== src/Reports/Data.antt =====
-- The rows that the report queries of `src/reports/` read and the joins they make: `accounts` with
-- the type and the subtype, `postings`, and `transactions` by their primary key.
use openaccounting.Prelude.{
  ℕ, String, Bool, true, false, not, ◌&&◌, ◌||◌, Option, none, some, List, [], ◌∷◌, leb, ◌==◌,
  str_eq,
}
use openaccounting.Prelude.Int.{ℤ, sub_ℕ}
use openaccounting.Prelude.Tables.{find, select}
use openaccounting.Prelude.Sums.{sum}
use openaccounting.Prelude.Texts.{Text}
use openaccounting.Posting.Data.{debit, credit, Txn, Posting, Db}

-- A row of `accounts`, as far as the reports and the handlers of accounts read it.
pub record Account : Type 0 where
  pub id : ℕ
  pub ledger_id : ℕ
  pub name : Text
  pub type_str : String
  pub subtype_str : String

pub record DimensionFilter : Type 0 where
  pub cost_center_id : Option ℕ
  pub project_id : Option ℕ

abbrev pub empty : DimensionFilter
empty = record { cost_center_id = none; project_id = none }

abbrev pub is_some : Option ℕ → Bool
is_some none = false
is_some (some x) = true

unfoldable pub is_active : DimensionFilter → Bool
is_active f = is_some f.cost_center_id || is_some f.project_id

-- `$3 IS NULL OR p.cost_center_id = $3`; a comparison with NULL does not hold.
abbrev pub null_or_equal : Option ℕ → Option ℕ → Bool
null_or_equal none column = true
null_or_equal (some wanted) none = false
null_or_equal (some wanted) (some value) = value == wanted

abbrev pub is_in_filter : DimensionFilter → Posting → Bool
is_in_filter f p =
    null_or_equal f.cost_center_id p.cost_center_id && null_or_equal f.project_id p.project_id

-- `t.kind NOT IN ('draft','pending')`
abbrev pub is_posted : Txn → Bool
is_posted t = not (str_eq t.kind "draft" || str_eq t.kind "pending")

-- CASE WHEN p.direction='DEBIT' THEN p.amount ELSE 0 END, and the same for credits.
abbrev pub debit_amount : Posting → ℕ
debit_amount p = elim p.direction [ debit ↦ p.amount | credit ↦ 0 ]

abbrev pub credit_amount : Posting → ℕ
credit_amount p = elim p.direction [ debit ↦ 0 | credit ↦ p.amount ]

-- A posting with the transaction that a LEFT JOIN found for it, if any.
pub record JoinedRow : Type 0 where
  pub p : Posting
  pub t : Option Txn

-- LEFT JOIN transactions t ON t.id = p.transaction_id AND t.txn_date <= $2
--     AND t.kind NOT IN ('draft','pending')
unfoldable pub left_join : ℕ → List Txn → List Posting → List JoinedRow
left_join as_of ts [] = []
left_join as_of ts (q ∷ ps) =
    record {
      p = q;
      t = find (λ (t : Txn). t.id == q.transaction_id && leb t.txn_date as_of && is_posted t) ts;
    }
    ∷ left_join as_of ts ps

-- COALESCE(SUM(debits), 0) - COALESCE(SUM(credits), 0) of the rows of one group
unfoldable pub raw_net : List JoinedRow → ℤ
raw_net rows = sub_ℕ (sum (λ r. debit_amount r.p) rows) (sum (λ r. credit_amount r.p) rows)

-- LEFT JOIN postings p ON p.account_id = a.id AND the filter
abbrev pub postings_of : DimensionFilter → ℕ → List Posting → List Posting
postings_of f account ps = select (λ p. p.account_id == account && is_in_filter f p) ps

-- One row of the query: an account with its net movement.
pub record AccountNet : Type 0 where
  pub account : Account
  pub net : ℤ

unfoldable pub account_net : Db → ℕ → DimensionFilter → Account → AccountNet
account_net db as_of f a = record {
  account = a;
  net = raw_net (left_join as_of db.transactions (postings_of f a.id db.postings));
}

-- WHERE a.ledger_id = $1
abbrev pub accounts_of : ℕ → List Account → List Account
accounts_of ledger rows = select (λ a. a.ledger_id == ledger) rows

-- `report::AccountTotal`; no report here computes a prior amount.
pub record AccountTotal : Type 0 where
  pub account_id : ℕ
  pub account_name : Text
  pub account_type : String
  pub amount : ℤ
