-- ===== src/Fx/Lookup.antt =====
-- Which stored rate the lookup picks.
use openaccounting.Prelude.{
  ℕ, ◌≤◌, ◌<◌, ◌⊎◌, inl, inr, String, true, false, List, [], ◌∷◌, ◌≡◌, refl, sym, subst, arith,
  none, some, Option-cases, Bool-cases, ◌≢◌, All, All-map, str_eq, eq_iff, if◌then◌else◌,
}
use openaccounting.Prelude.Results.{ok}
use openaccounting.Prelude.Foreign.{Decimal, Env}
use openaccounting.Fx.Rates.{FxRate, applies, precedes, prefer, latest, rate_of, lookup}

-- The row `b` does not stand before `a` in the order of the query.
abbrev pub NotBefore : FxRate → FxRate → Type 0
NotBefore a b =
    (b.rate_date < a.rate_date)
    ⊎ ((b.rate_date ≡ a.rate_date) × (b.is_manual ≡ true → a.is_manual ≡ true))

NotBefore-trans : (a b c : FxRate) → NotBefore a b → NotBefore b c → NotBefore a c
NotBefore-trans a b c h k = ground arith

-- Each applicable row of the table comes no earlier in the order than `a`.
abbrev pub IsLatest : String → String → ℕ → FxRate → List FxRate → Type 0
IsLatest base quote date a rows = All (λ r. applies base quote date r ≡ true → NotBefore a r) rows

prefer-NotBefore :
    (r best : FxRate) → NotBefore (prefer r (some best)) r × NotBefore (prefer r (some best)) best
unfolding prefer precedes
prefer-NotBefore r best = ground arith

latest-none :
    (base quote : String) (date : ℕ) (rows : List FxRate)
    → latest base quote date rows ≡ none
    → All (λ r. applies base quote date r ≡ false) rows
unfolding latest
latest-none base quote date [] h = tt
latest-none base quote date (x ∷ rows) h =
    (ground arith, latest-none base quote date rows (ground arith))

module _ (base quote : String) (date : ℕ) where
  IsLatest-none :
      (a : FxRate) (rows : List FxRate)
      → All (λ r. applies base quote date r ≡ false) rows
      → IsLatest base quote date a rows
  IsLatest-none a rows h =
      All-map _ (λ r. applies base quote date r ≡ true → NotBefore a r) rows
        (λ r off on. absurd (ground arith)) h

  IsLatest-trans :
      (a b : FxRate) (rows : List FxRate)
      → NotBefore a b
      → IsLatest base quote date b rows
      → IsLatest base quote date a rows
  IsLatest-trans a b rows k h =
      All-map _ (λ r. applies base quote date r ≡ true → NotBefore a r) rows
        (λ r after on. NotBefore-trans a b r k (after on)) h

  abbrev Picked : FxRate → List FxRate → Type 0
  Picked r rows = (applies base quote date r ≡ true) × IsLatest base quote date r rows

  prefer-applies :
      (x best : FxRate)
      → applies base quote date x ≡ true
      → applies base quote date best ≡ true
      → applies base quote date (prefer x (some best)) ≡ true
  unfolding prefer
  prefer-applies x best h k = elim (Bool-cases (precedes best x)) [
    | inl e ↦ rw e k
    | inr e ↦ rw e h
  ]

  -- The row that the query returns applies to the pair and the date, and no other row that does
  -- stands before it: none is of a later date, and none of the same date is manual if it is not.
  pub latest-some :
      (rows : List FxRate) (r : FxRate)
      → latest base quote date rows ≡ some r
      → (applies base quote date r ≡ true) × IsLatest base quote date r rows
  unfolding latest
  latest-some [] r h = cc
  latest-some (x ∷ rows) r h = elim (Option-cases (latest base quote date rows)) [
    | inl missing ↦ elim (Bool-cases (applies base quote date x)) [
      | inr off ↦ absurd (ground arith)
      | inl on ↦
          let e : r ≡ x = unfold prefer in ground arith in
          subst (λ a. Picked a (x ∷ rows)) (sym e)
            (
              on,
              (
                λ _. inr (refl, λ m. m),
                IsLatest-none x rows (latest-none base quote date rows missing),
              ),
            )
    ]
    | inr (best, found) ↦
        let (fits, first) = latest-some rows best found in
        elim (Bool-cases (applies base quote date x)) [
          | inr off ↦
              let e : r ≡ best = ground arith in
              subst (λ a. Picked a (x ∷ rows)) (sym e) (fits, (λ on. absurd (ground arith), first))
          | inl on ↦
              let e : r ≡ prefer x (some best) = ground arith in
              let (over_x, over_best) = prefer-NotBefore x best in
              subst (λ a. Picked a (x ∷ rows)) (sym e)
                (
                  prefer-applies x best on fits,
                  (λ _. over_x, IsLatest-trans (prefer x (some best)) best rows over_best first),
                )
        ]
  ]

-- The row has the pair this way round or the other, and the rate follows.
rated :
    (base quote : String) (date : ℕ) (s : FxRate) (stored inverse : Decimal) {d : Decimal}
    → applies base quote date s ≡ true
    → d ≡ (if str_eq s.base_currency base then stored else inverse)
    → ((s.base_currency ≡ base) × (d ≡ stored)) ⊎ ((s.base_currency ≡ quote) × (d ≡ inverse))
unfolding applies
rated base quote date s stored inverse fits e = elim (Bool-cases (str_eq s.base_currency base)) [
  | inl direct ↦ inl ((eq_iff s.base_currency base).0 direct, rw direct at e)
  | inr other ↦ inr ((eq_iff s.base_currency quote).0 (ground arith), rw other at e)
]

-- What a successful lookup of two different currencies returns: the rate of a row of the table of
-- the first query, not zero, that applies to the pair in either direction and to the date, and that
-- no applicable row of that table stands before, whichever direction it has. It is returned as it
-- is stored if the row that stands first in the table of the second query has as its base the
-- currency that is converted, and its reciprocal if that row has the pair the other way round.
pub lookup_lem :
    (env : Env) (rates again : List FxRate) (base quote : String) (date : ℕ) (d : Decimal)
    → str_eq base quote ≡ false
    → lookup env rates again base quote date ≡ ok d
    → (r : FxRate) × (applies base quote date r ≡ true)
      × IsLatest base quote date r rates
      × (r.rate ≢ 0)
      × ((s : FxRate) × (applies base quote date s ≡ true)
          × IsLatest base quote date s again
          × (((s.base_currency ≡ base) × (d ≡ record { mantissa = r.rate; scale = 12 }))
              ⊎ ((s.base_currency ≡ quote)
                  × (d ≡ env.reciprocal (record { mantissa = r.rate; scale = 12 })))))
unfolding lookup rate_of
lookup_lem env rates again base quote date d differ h =
    elim (Option-cases (latest base quote date rates)) [
      | inl missing ↦ absurd (ground arith)
      | inr (r, found) ↦ elim (Option-cases (latest base quote date again)) [
        | inl missing ↦ absurd (ground arith)
        | inr (s, found_again) ↦
            let (fits, first) = latest-some base quote date rates r found in
            let (fits_again, first_again) = latest-some base quote date again s found_again in
            (
              r,
              fits,
              first,
              ground arith,
              (
                s,
                fits_again,
                first_again,
                rated base quote date s (record { mantissa = r.rate; scale = 12 })
                    (env.reciprocal (record { mantissa = r.rate; scale = 12 })) fits_again
                    (ground arith),
              ),
            )
      ]
    ]

-- If a table holds one rate of a pair of different currencies, not zero, then a lookup of the pair
-- at any date not before the rate's succeeds with that rate, however old the rate is.
pub lookup_any_age :
    (env : Env) (r : FxRate) (date : ℕ)
    → str_eq r.base_currency r.quote_currency ≡ false
    → r.rate ≢ 0
    → r.rate_date ≤ date
    → lookup env (r ∷ []) (r ∷ []) r.base_currency r.quote_currency date
      ≡ ok (record { mantissa = r.rate; scale = 12 })
unfolding lookup latest applies prefer rate_of
lookup_any_age env r date differ set old =
    let base = (eq_iff r.base_currency r.base_currency).1 refl in
    let quote = (eq_iff r.quote_currency r.quote_currency).1 refl in ground arith
