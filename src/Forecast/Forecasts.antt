-- ===== src/Forecast/Forecasts.antt =====
-- What `build_forecast` answers.
use openaccounting.Prelude.{
  ℕ, suc, ◌+◌, ◌≤◌, Bool, ◌≡◌, refl, sym, ap, ◌∙◌, some, List, [], ◌∷◌, if◌then◌else◌, length,
  get_elem?, All, All-map, arith,
}
use openaccounting.Prelude.Int.{ℤ, ◌+ℤ◌, ltb_ℤ, ◌≤ℤ◌}
use openaccounting.Prelude.Sums.{sum_ℤ}
use openaccounting.Prelude.Texts.{Text}
use openaccounting.Forecast.Schedule.{Calendar, ForecastEntry, materialize_forecast}
use openaccounting.Forecast.Project.{ForecastPoint, project_days, project}
use openaccounting.Forecast.Balances.{
  up_to, project_days-get_elem?, length-project_days, up_to_total, materialize_forecast-IsWithin,
}
use openaccounting.Forecast.Build.{
  Tables, load_active_templates, today_cash_balance, min_point, max_point, last_point, over,
  ForecastResult, build_forecast,
}

lower :
    (m b p q : ℤ) (ps : List ForecastPoint)
    → q ≤ℤ b
    → q ≤ℤ p
    → (m ≤ℤ q) × All (λ (r : ForecastPoint). m ≤ℤ r.balance) ps
    → (m ≤ℤ b) × (m ≤ℤ p) × All (λ (r : ForecastPoint). m ≤ℤ r.balance) ps
lower m b p q ps h k below = (omega arith, omega arith, below.1)

higher :
    (m b p q : ℤ) (ps : List ForecastPoint)
    → b ≤ℤ q
    → p ≤ℤ q
    → (q ≤ℤ m) × All (λ (r : ForecastPoint). r.balance ≤ℤ m) ps
    → (b ≤ℤ m) × (p ≤ℤ m) × All (λ (r : ForecastPoint). r.balance ≤ℤ m) ps
higher m b p q ps h k above = (omega arith, omega arith, above.1)

min_point-least :
    (best : ForecastPoint) (ps : List ForecastPoint)
    → ((min_point best ps).balance ≤ℤ best.balance)
      × All (λ p. (min_point best ps).balance ≤ℤ p.balance) ps
unfolding min_point
min_point-least best [] = (omega arith, tt)
min_point-least best (p ∷ ps) =
    let q = if ltb_ℤ p.balance best.balance then p else best in
    let r =
      lower (min_point q ps).balance best.balance p.balance q.balance ps (ground arith)
        (ground arith) (min_point-least q ps) in
    (r.0, (r.1, r.2))

max_point-greatest :
    (best : ForecastPoint) (ps : List ForecastPoint)
    → (best.balance ≤ℤ (max_point best ps).balance)
      × All (λ p. p.balance ≤ℤ (max_point best ps).balance) ps
unfolding max_point
max_point-greatest best [] = (omega arith, tt)
max_point-greatest best (p ∷ ps) =
    let q = if ltb_ℤ p.balance best.balance then best else p in
    let r =
      higher (max_point q ps).balance best.balance p.balance q.balance ps (ground arith)
        (ground arith) (max_point-greatest q ps) in
    (r.0, (r.1, r.2))

last_point-get_elem? :
    (p : ForecastPoint) (ps : List ForecastPoint)
    → get_elem? (p ∷ ps) (length ps) ≡ some (last_point p ps)
unfolding last_point
last_point-get_elem? p [] = refl
last_point-get_elem? p (q ∷ qs) = last_point-get_elem? q qs

-- A forecast agrees with its entries: each day's balance is the balance of today with the entries
-- up to the day.
pub record IsForecast (today : ℕ) (r : ForecastResult) : Type 0 where
  pub points_of : length r.points ≡ suc r.horizon_days
  pub balances :
      (k : ℕ)
      → k ≤ r.horizon_days
      → get_elem? r.points k
        ≡ some
            (record { date = today + k; balance = r.today_balance +ℤ up_to (today + k) r.entries })
  pub ending :
      r.ending_balance ≡ r.today_balance +ℤ sum_ℤ (λ (e : ForecastEntry). e.amount) r.entries
  pub bounds :
      All
        (λ (p : ForecastPoint). (r.min_balance ≤ℤ p.balance) × (p.balance ≤ℤ r.max_balance))
        r.points

both :
    (lo hi : ℤ) (ps : List ForecastPoint)
    → All (λ (p : ForecastPoint). lo ≤ℤ p.balance) ps
    → All (λ (p : ForecastPoint). p.balance ≤ℤ hi) ps
    → All (λ (p : ForecastPoint). (lo ≤ℤ p.balance) × (p.balance ≤ℤ hi)) ps
both lo hi [] h k = tt
both lo hi (p ∷ ps) h k = ((h.0, k.0), both lo hi ps h.1 k.1)

over_bounds :
    (missing : ForecastPoint) (ps : List ForecastPoint)
    → All
        (λ (p : ForecastPoint).
          ((over min_point missing ps).balance ≤ℤ p.balance)
          × (p.balance ≤ℤ (over max_point missing ps).balance))
        ps
over_bounds missing [] = tt
over_bounds missing (p ∷ ps) =
    let least = min_point-least p ps in
    let greatest = max_point-greatest p ps in
    both (min_point p ps).balance (max_point p ps).balance (p ∷ ps) least greatest

-- The last of the points, where there is one more than `n`.
over_last :
    (missing : ForecastPoint) (ps : List ForecastPoint) (n : ℕ)
    → length ps ≡ suc n
    → get_elem? ps n ≡ some (over last_point missing ps)
over_last missing [] n h = cc
over_last missing (p ∷ ps) n h =
    let e : n ≡ length ps = omega (arith, h) in rw e (last_point-get_elem? p ps)

some_balance : {p q : ForecastPoint} → some p ≡ some q → p.balance ≡ q.balance
some_balance h = ap (λ (p : ForecastPoint). p.balance) (same h)
  where
    same : {a b : ForecastPoint} → some a ≡ some b → a ≡ b
    same x = cc

-- A forecast has one point for today and for each day of its horizon. The balance of each is the
-- cash balance of today and the amounts of the entries up to that day; the ending balance is that
-- of today and the amounts of all entries; and no point is below the minimum or above the maximum.
pub build_forecast-IsForecast :
    (is_cash : Text → Bool) (cal : Calendar) (tables : Tables) (today ledger days : ℕ)
    → IsForecast today (build_forecast is_cash cal tables today ledger days)
unfolding build_forecast project
build_forecast-IsForecast is_cash cal tables today ledger days =
    let rows = load_active_templates is_cash tables ledger in
    let now = today_cash_balance is_cash tables ledger in
    let es = materialize_forecast cal rows today days in
    let (sorted, within) = materialize_forecast-IsWithin cal rows today days in
    let from = All-map _ (λ (e : ForecastEntry). today ≤ e.date) es (λ e h. h.0) within in
    let upto = All-map _ (λ (e : ForecastEntry). e.date ≤ today + days) es (λ e h. h.1) within in
    let ps = project_days (suc days) today now es in
    let points = length-project_days (suc days) today now es in
    let missing : ForecastPoint = record { date = today; balance = now } in
    let at = λ (k : ℕ) (le : k ≤ days).
      project_days-get_elem? (suc days) today now es k sorted from (omega arith) in
    record {
      points_of = points;
      balances = at;
      ending =
          some_balance (sym (over_last missing ps days points) ∙ at days (omega arith))
          ∙ ap (λ v. now +ℤ v) (up_to_total (today + days) es upto);
      bounds = over_bounds missing ps;
    }
