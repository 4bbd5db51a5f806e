-- ===== src/Forecast/Project.antt =====
-- `project`: the balance of each day.
use openaccounting.Prelude.{ℕ, zero, suc, ◌+◌, List, [], ◌∷◌, ◌==◌, if◌then◌else◌}
use openaccounting.Prelude.Int.{ℤ, ◌+ℤ◌}
use openaccounting.Forecast.Schedule.{ForecastEntry}

pub record ForecastPoint : Type 0 where
  pub date : ℕ
  pub balance : ℤ

-- `while idx < entries.len() && entries[idx].date == d`: the balance, and the entries left.
unfoldable pub apply_day : ℕ → ℤ → List ForecastEntry → ℤ × List ForecastEntry
apply_day d balance [] = (balance, [])
apply_day d balance (e ∷ es) =
    let more = apply_day d (balance +ℤ e.amount) es in
    if e.date == d then more else (balance, e ∷ es)

unfoldable pub project_days : ℕ → ℕ → ℤ → List ForecastEntry → List ForecastPoint
unfolding apply_day
project_days zero d balance entries = []
project_days (suc days) d balance entries =
    let after = apply_day d balance entries in
    record { date = d; balance = after.0 } ∷ project_days days (d + 1) after.0 after.1

unfoldable pub project : ℕ → ℤ → List ForecastEntry → ℕ → List ForecastPoint
unfolding project_days
project today today_balance entries horizon_days =
    project_days (suc horizon_days) today today_balance entries
