-- ===== src/Forecast/Balances.antt =====
-- The balances of a forecast are the balance of today with the entries up to each day.
use openaccounting.Prelude.{
  ℕ, zero, suc, ◌+◌, ◌≤◌, ◌<◌, Bool, true, false, ◌≡◌, refl, ap, ◌∙◌, some, List, [], ◌∷◌, leb,
  ◌==◌, if◌then◌else◌, length, get_elem?, All, All-append, All-map, arith, Bool-cases, inl, inr,
}
use openaccounting.Prelude.Int.{ℤ, pos, ◌+ℤ◌, int_laws, parts}
use openaccounting.Prelude.Sums.{sum_ℤ}
use openaccounting.Prelude.Sorted.{IsSorted, All-order_by, order_by-IsSorted}
use openaccounting.Forecast.Schedule.{
  Calendar, TemplateRow, ForecastEntry, date_of, advance, occurrences, all_occurrences,
  is_recognised_frequency, materialize_forecast,
}
use openaccounting.Forecast.Project.{ForecastPoint, apply_day, project_days}

abbrev amount_of : ForecastEntry → ℤ
amount_of e = e.amount

-- What the entries up to a day add up to.
abbrev pub up_to : ℕ → List ForecastEntry → ℤ
up_to day entries =
    sum_ℤ (λ (e : ForecastEntry). if leb e.date day then e.amount else pos 0) entries

abbrev IsFrom : ℕ → List ForecastEntry → Type 0
IsFrom day entries = All (λ e. day ≤ e.date) entries

-- After a later day than all of them nothing is added.
up_to_zero : (day : ℕ) (es : List ForecastEntry) → IsFrom (suc day) es → up_to day es ≡ pos 0
up_to_zero day [] h = refl
up_to_zero day (e ∷ es) h =
    let late : leb e.date day ≡ false = ground (arith, h.0) in
    rw late (omega (int_laws, parts (up_to_zero day es h.1)))

-- One day takes the entries of its date and leaves the later ones.
record IsApplied (d : ℕ) (b : ℤ) (es : List ForecastEntry) (after : ℤ × List ForecastEntry)
    : Type 0 where
  sorted : IsSorted date_of after.1
  later : IsFrom (suc d) after.1
  kept : (day : ℕ) → d ≤ day → after.0 +ℤ up_to day after.1 ≡ b +ℤ up_to day es

apply_day-IsApplied :
    (d : ℕ) (b : ℤ) (es : List ForecastEntry)
    → IsSorted date_of es
    → IsFrom d es
    → IsApplied d b es (apply_day d b es)
unfolding apply_day
apply_day-IsApplied d b [] s h = record { sorted = tt; later = tt; kept = λ day le. refl }
apply_day-IsApplied d b (e ∷ es) s h = elim (Bool-cases (e.date == d)) [
  | inl now ↦
      let rest = apply_day-IsApplied d (b +ℤ e.amount) es s.1 h.1 in
      rw now (record {
        sorted = rest.sorted;
        later = rest.later;
        kept = λ day le.
            let due : leb e.date day ≡ true = ground arith in
            rw due (omega (int_laws, parts (rest.kept day le)));
      })
  | inr other ↦
      let after : d < e.date = ground (arith, h.0) in
      rw other (record {
        sorted = s;
        later = (
          after,
          All-map (λ f. e.date ≤ f.date) (λ f. suc d ≤ f.date) es (λ f k. omega arith) s.0,
        );
        kept = λ day le. refl;
      })
]

next_day : (d : ℕ) (es : List ForecastEntry) → IsFrom (suc d) es → IsFrom (d + 1) es
next_day d es h = All-map (λ e. suc d ≤ e.date) (λ e. d + 1 ≤ e.date) es (λ e k. omega arith) h

point_eq :
    (d d' : ℕ) (b b' : ℤ)
    → d ≡ d'
    → b ≡ b'
    → some (let p : ForecastPoint = record { date = d; balance = b } in p)
      ≡ some (record { date = d'; balance = b' })
point_eq d d' b b' e f = cc

pub project_days-get_elem? :
    (n d : ℕ) (b : ℤ) (es : List ForecastEntry) (k : ℕ)
    → IsSorted date_of es
    → IsFrom d es
    → k < n
    → get_elem? (project_days n d b es) k
      ≡ some (record { date = d + k; balance = b +ℤ up_to (d + k) es })
unfolding project_days
project_days-get_elem? zero d b es k s h lt = absurd (omega arith)
project_days-get_elem? (suc n) d b es zero s h lt =
    let a = apply_day-IsApplied d b es s h in
    let now = up_to_zero d (apply_day d b es).1 a.later in
    let e : (apply_day d b es).0 ≡ b +ℤ up_to d es =
      omega (int_laws, parts now, parts (a.kept d (omega arith))) in
    point_eq d (d + 0) (apply_day d b es).0 (b +ℤ up_to (d + 0) es) (omega arith)
      (e ∙ ap (λ j. b +ℤ up_to j es) (omega arith))
project_days-get_elem? (suc n) d b es (suc k) s h lt =
    let a = apply_day-IsApplied d b es s h in
    let (b', es') = apply_day d b es in
    project_days-get_elem? n (d + 1) b' es' k a.sorted (next_day d es' a.later) (omega arith)
    ∙ point_eq (d + 1 + k) (d + suc k) (b' +ℤ up_to (d + 1 + k) es') (b +ℤ up_to (d + suc k) es)
        (omega arith) (ap (λ j. b' +ℤ up_to j es') (omega arith) ∙ a.kept (d + suc k) (omega arith))

pub length-project_days :
    (n d : ℕ) (b : ℤ) (es : List ForecastEntry) → length (project_days n d b es) ≡ n
unfolding project_days
length-project_days zero d b es = refl
length-project_days (suc n) d b es =
    omega (arith, length-project_days n (d + 1) (apply_day d b es).0 (apply_day d b es).1)

-- Up to a day that is not before any of them all entries count.
pub up_to_total :
    (day : ℕ) (es : List ForecastEntry)
    → All (λ e. e.date ≤ day) es
    → up_to day es ≡ sum_ℤ (λ (e : ForecastEntry). e.amount) es
up_to_total day [] h = refl
up_to_total day (e ∷ es) h =
    let due : leb e.date day ≡ true = ground (arith, h.0) in rw (due, up_to_total day es h.1) refl

-- The entries of a template lie between today and the horizon.
abbrev pub IsWithin : ℕ → ℕ → List ForecastEntry → Type 0
IsWithin today horizon entries = All (λ e. (today ≤ e.date) × (e.date ≤ horizon)) entries

occurrences-IsWithin :
    (cal : Calendar) (today horizon : ℕ) (t : TemplateRow) (guard d : ℕ)
    → IsWithin today horizon (occurrences cal today horizon t guard d)
unfolding occurrences
occurrences-IsWithin cal today horizon t zero d = tt
occurrences-IsWithin cal today horizon t (suc guard) d =
    let rest = occurrences-IsWithin cal today horizon t guard (advance cal d t.frequency 1) in
    elim (Bool-cases (leb d horizon)) [
      | inr past ↦ rw past tt
      | inl before ↦ elim (Bool-cases (leb today d)) [
        | inr old ↦ rw (before, old) rest
        | inl new ↦
            let in_range : (today ≤ d) × (d ≤ horizon) = ground arith in
            rw (before, new) (in_range, rest)
      ]
    ]

all_occurrences-IsWithin :
    (cal : Calendar) (today horizon : ℕ) (ts : List TemplateRow)
    → IsWithin today horizon (all_occurrences cal today horizon ts)
unfolding all_occurrences
all_occurrences-IsWithin cal today horizon [] = tt
all_occurrences-IsWithin cal today horizon (t ∷ ts) =
    All-append _ _ (all_occurrences cal today horizon ts)
      (one (is_recognised_frequency t.frequency)) (all_occurrences-IsWithin cal today horizon ts)
  where
    one :
        (b : Bool)
        → IsWithin today horizon (if b then occurrences cal today horizon t 400 t.next_date else [])
    one true = occurrences-IsWithin cal today horizon t 400 t.next_date
    one false = tt

-- The entries of a forecast stand in the order of their dates, between today and the horizon.
pub materialize_forecast-IsWithin :
    (cal : Calendar) (ts : List TemplateRow) (today days : ℕ)
    → IsSorted date_of (materialize_forecast cal ts today days)
      × IsWithin today (today + days) (materialize_forecast cal ts today days)
unfolding materialize_forecast
materialize_forecast-IsWithin cal ts today days =
    let es = all_occurrences cal today (today + days) ts in
    (
      order_by-IsSorted date_of es,
      All-order_by date_of (λ e. (today ≤ e.date) × (e.date ≤ today + days)) es
          (all_occurrences-IsWithin cal today (today + days) ts),
    )
