-- ===== src/Forecast/Build.antt =====
-- `build_forecast` with its queries. The day of today and the test of account names for cash and
-- bank (LIKE) are arguments.
use openaccounting.Prelude.{
  ℕ, String, Bool, false, ◌&&◌, Option, none, some, List, [], ◌∷◌, ◌++◌, map, ◌==◌, if◌then◌else◌,
}
use openaccounting.Prelude.Int.{ℤ, pos, sub_ℕ, ltb_ℤ}
use openaccounting.Prelude.Tables.{find, select}
use openaccounting.Prelude.Sums.{sum}
use openaccounting.Prelude.Texts.{Text}
use openaccounting.Posting.Data.{Txn, Posting, Db}
use openaccounting.Reports.Data.{Account, is_posted, debit_amount, credit_amount}
use openaccounting.Forecast.Schedule.{Calendar, TemplateRow, ForecastEntry, materialize_forecast}
use openaccounting.Forecast.Project.{ForecastPoint, project}

-- A row of `transaction_templates`, and one of `template_postings`.
pub record Template : Type 0 where
  pub id : ℕ
  pub ledger_id : ℕ
  pub description : String
  pub payee : Option String
  pub frequency : String
  pub next_date : ℕ
  pub is_active : Bool

pub record TemplatePosting : Type 0 where
  pub template_id : ℕ
  pub account_id : ℕ
  pub amount : ℕ
  pub direction : String

pub record Tables : Type 0 where
  pub db : Db
  pub accounts : List Account
  pub templates : List Template
  pub template_postings : List TemplatePosting

abbrev pub template_row : Template → TemplatePosting → TemplateRow
template_row t p = record {
  description = t.description;
  payee = t.payee;
  frequency = t.frequency;
  next_date = t.next_date;
  amount = pos p.amount;
  cash_direction = p.direction;
}

-- `min_by_key`: the first of the least.
unfoldable pub min_point : ForecastPoint → List ForecastPoint → ForecastPoint
min_point best [] = best
min_point best (p ∷ ps) = min_point (if ltb_ℤ p.balance best.balance then p else best) ps

-- `max_by_key`: the last of the greatest.
unfoldable pub max_point : ForecastPoint → List ForecastPoint → ForecastPoint
max_point best [] = best
max_point best (p ∷ ps) = max_point (if ltb_ℤ p.balance best.balance then best else p) ps

unfoldable pub last_point : ForecastPoint → List ForecastPoint → ForecastPoint
last_point p [] = p
last_point p (q ∷ qs) = last_point q qs

abbrev pub over :
    (ForecastPoint → List ForecastPoint → ForecastPoint)
    → ForecastPoint
    → List ForecastPoint
    → ForecastPoint
over f missing [] = missing
over f missing (p ∷ ps) = f p ps

pub record ForecastResult : Type 0 where
  pub today_balance : ℤ
  pub horizon_days : ℕ
  pub entries : List ForecastEntry
  pub points : List ForecastPoint
  pub min_balance : ℤ
  pub min_balance_date : ℕ
  pub max_balance : ℤ
  pub max_balance_date : ℕ
  pub ending_balance : ℤ

module _ (is_cash : Text → Bool) where
  abbrev pub on_cash : List Account → ℕ → Bool
  on_cash accounts account = elim (find (λ (a : Account). a.id == account) accounts) [
    | none ↦ false
    | some a ↦ is_cash a.name
  ]

  -- The join: a row for each cash posting of each active template of the ledger.
  unfoldable pub template_rows : Tables → List Template → List TemplateRow
  template_rows tables [] = []
  template_rows tables (t ∷ ts) =
      map (template_row t) (
        select
          (λ (p : TemplatePosting). p.template_id == t.id && on_cash tables.accounts p.account_id)
          tables.template_postings)
      ++ template_rows tables ts

  unfoldable pub load_active_templates : Tables → ℕ → List TemplateRow
  unfolding template_rows
  load_active_templates tables ledger =
      template_rows tables
        (select (λ (t : Template). t.ledger_id == ledger && t.is_active) tables.templates)

  abbrev pub in_posted : Db → ℕ → Posting → Bool
  in_posted db ledger p = elim (find (λ (t : Txn). t.id == p.transaction_id) db.transactions) [
    | none ↦ false
    | some t ↦ t.ledger_id == ledger && is_posted t
  ]

  abbrev pub on_ledger_cash : List Account → ℕ → Posting → Bool
  on_ledger_cash accounts ledger p = elim (find (λ (a : Account). a.id == p.account_id) accounts) [
    | none ↦ false
    | some a ↦ a.ledger_id == ledger && is_cash a.name
  ]

  unfoldable pub today_cash_balance : Tables → ℕ → ℤ
  today_cash_balance tables ledger =
      let rows =
        select
          (λ (p : Posting). in_posted tables.db ledger p && on_ledger_cash tables.accounts ledger p)
          tables.db.postings in
      sub_ℕ (sum debit_amount rows) (sum credit_amount rows)

  unfoldable pub build_forecast : Calendar → Tables → ℕ → ℕ → ℕ → ForecastResult
  unfolding load_active_templates today_cash_balance min_point max_point last_point
  build_forecast cal tables today ledger horizon_days =
      let today_balance = today_cash_balance tables ledger in
      let entries =
        materialize_forecast cal (load_active_templates tables ledger) today horizon_days in
      let points = project today today_balance entries horizon_days in
      let missing : ForecastPoint = record { date = today; balance = today_balance } in
      let least = over min_point missing points in
      let greatest = over max_point missing points in
      record {
        today_balance = today_balance;
        horizon_days = horizon_days;
        entries = entries;
        points = points;
        min_balance = least.balance;
        min_balance_date = least.date;
        max_balance = greatest.balance;
        max_balance_date = greatest.date;
        ending_balance = (over last_point missing points).balance;
      }
