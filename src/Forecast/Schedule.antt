-- ===== src/Forecast/Schedule.antt =====
-- `advance` and `materialize_forecast`: the coming dates of recurring templates.
use openaccounting.Prelude.{
  ℕ, zero, suc, ◌+◌, ◌-◌, min, String, Bool, ◌||◌, Option, none, some, List, [], ◌∷◌, ◌++◌, ltb,
  leb, ◌==◌, str_eq, if◌then◌else◌,
}
use openaccounting.Prelude.Int.{ℤ, pos, ◌-ℤ◌}
use openaccounting.Prelude.Sums.{order_by}

-- What chrono knows of a day number, and `NaiveDate::from_ymd_opt`. `first_of_month` is its result
-- on a first of the month, which the code unwraps.
pub record Calendar : Type 0 where
  pub year : ℕ → ℕ
  pub month : ℕ → ℕ
  pub day : ℕ → ℕ
  pub from_ymd_opt : ℕ → ℕ → ℕ → Option ℕ
  pub first_of_month : ℕ → ℕ → ℕ

pub record TemplateRow : Type 0 where
  pub description : String
  pub payee : Option String
  pub frequency : String
  pub next_date : ℕ
  pub amount : ℤ
  pub cash_direction : String

pub record ForecastEntry : Type 0 where
  pub date : ℕ
  pub description : String
  pub payee : Option String
  pub amount : ℤ

-- `while month > 12`; a round takes 12 months away, so `month` rounds are enough.
unfoldable pub carry : ℕ → ℕ → ℕ → ℕ × ℕ
carry zero year month = (year, month)
carry (suc rounds) year month =
    let rest = carry rounds (year + 1) (month - 12) in if ltb 12 month then rest else (year, month)

unfoldable pub or_same : ℕ → Option ℕ → ℕ
or_same d none = d
or_same d (some e) = e

unfoldable pub is_recognised_frequency : String → Bool
is_recognised_frequency f =
    str_eq f "weekly"
    || str_eq f "biweekly"
    || str_eq f "monthly"
    || str_eq f "quarterly"
    || str_eq f "yearly"

unfoldable pub signed : TemplateRow → ℤ
signed t =
    if str_eq t.cash_direction "DEBIT"
    then t.amount
    else if str_eq t.cash_direction "CREDIT"
    then pos 0 -ℤ t.amount
    else t.amount

unfoldable pub entry_on : TemplateRow → ℕ → ForecastEntry
unfolding signed
entry_on t d = record { date = d; description = t.description; payee = t.payee; amount = signed t }

abbrev pub date_of : ForecastEntry → ℕ
date_of e = e.date

module _ (cal : Calendar) where
  -- The day before the first of the next month.
  unfoldable pub last_day_of_month : ℕ → ℕ → ℕ
  last_day_of_month year month =
      if month == 12
      then cal.day (cal.first_of_month (year + 1) 1 - 1)
      else cal.day (cal.first_of_month year (month + 1) - 1)

  -- `n` is positive, so the month does not come out below 1.
  unfoldable pub next_month_n : ℕ → ℕ → ℕ
  unfolding last_day_of_month carry or_same
  next_month_n d n =
      let (year, month) = carry (cal.month d + n) (cal.year d) (cal.month d + n) in
      or_same d (cal.from_ymd_opt year month (min (cal.day d) (last_day_of_month year month)))

  unfoldable pub next_month : ℕ → ℕ
  unfolding next_month_n
  next_month d = next_month_n d 1

  unfoldable pub next_year : ℕ → ℕ
  unfolding next_month_n
  next_year d = next_month_n d 12

  unfoldable pub one_period : String → ℕ → ℕ
  unfolding next_month next_month_n next_year
  one_period frequency d =
      if str_eq frequency "weekly"
      then d + 7
      else if str_eq frequency "biweekly"
      then d + 14
      else if str_eq frequency "monthly"
      then next_month d
      else if str_eq frequency "quarterly"
      then next_month_n d 3
      else if str_eq frequency "yearly"
      then next_year d
      else d

  unfoldable pub advance : ℕ → String → ℕ → ℕ
  unfolding one_period
  advance d frequency zero = d
  advance d frequency (suc n) = advance (one_period frequency d) frequency n

  -- The loop over the dates of one template, with the rounds that its guard leaves.
  unfoldable pub occurrences : ℕ → ℕ → TemplateRow → ℕ → ℕ → List ForecastEntry
  unfolding entry_on advance
  occurrences today horizon t zero d = []
  occurrences today horizon t (suc guard) d =
      let rest = occurrences today horizon t guard (advance d t.frequency 1) in
      if leb d horizon then (if leb today d then entry_on t d ∷ rest else rest) else []

  unfoldable pub all_occurrences : ℕ → ℕ → List TemplateRow → List ForecastEntry
  unfolding occurrences is_recognised_frequency
  all_occurrences today horizon [] = []
  all_occurrences today horizon (t ∷ ts) =
      (if is_recognised_frequency t.frequency
        then occurrences today horizon t 400 t.next_date
        else [])
      ++ all_occurrences today horizon ts

  unfoldable pub materialize_forecast : List TemplateRow → ℕ → ℕ → List ForecastEntry
  unfolding all_occurrences
  materialize_forecast templates today horizon_days =
      order_by (λ (e f : ForecastEntry). leb e.date f.date)
        (all_occurrences today (today + horizon_days) templates)
