-- ===== src/Fx/Tests.antt =====
-- The theorems about rates at concrete inputs.
use openaccounting.Prelude.{
  ℕ, ◌+◌, ◌*◌, ◌/◌, ◌^◌, ◌≤◌, ◌<◌, true, false, some, List, [], ◌∷◌, ◌≡◌, ◌≢◌, ◌⊎◌, refl, arith,
}
use openaccounting.Prelude.Int.{pos, abs, neg_part, pos_part}
use openaccounting.Prelude.Foreign.{Decimal, Env}
use openaccounting.Fx.Rates.{FxRate, applies, precedes, prefer, latest, rate_of, lookup}
use openaccounting.Fx.Convert.{derive_base_amount}
use openaccounting.Fx.Rounding.{derive_base_amount-nearest}
use openaccounting.Fx.Lookup.{IsLatest, lookup_lem}

abbrev calendar : Env
calendar = record {
  year_of = λ d. d / 365;
  december_31 = λ y. some (y * 365 + 364);
  product = λ a b. record { mantissa = a.mantissa * b.mantissa; scale = a.scale + b.scale };
  reciprocal = λ r. record { mantissa = 10 ^ (r.scale + 12) / r.mantissa; scale = 12 };
}

abbrev dollars : ℕ → ℕ → FxRate
dollars rate date = record {
  base_currency = "USD";
  quote_currency = "EUR";
  rate = rate;
  rate_date = date;
  is_manual = false;
}

abbrev rates : List FxRate
rates = dollars 900000000000 100 ∷ dollars 910000000000 120 ∷ dollars 950000000000 140 ∷ []

-- 12.3450 at 0.9
derive_base_amount-nearest_example :
    (k : ℕ) × (abs (derive_base_amount calendar (pos 123450) (record { mantissa = 9; scale = 1 }))
      ≡ 100 * k)
    × (2 * (k * (100 * 10 ^ 1)) ≤ 2 * (123450 * 9) + 100 * 10 ^ 1)
    × (2 * (123450 * 9) < 2 * (k * (100 * 10 ^ 1)) + 100 * 10 ^ 1)
    × (neg_part (pos 123450) ≡ 0
        → neg_part (derive_base_amount calendar (pos 123450) (record { mantissa = 9; scale = 1 }))
          ≡ 0)
    × (pos_part (pos 123450) ≡ 0
        → pos_part (derive_base_amount calendar (pos 123450) (record { mantissa = 9; scale = 1 }))
          ≡ 0)
derive_base_amount-nearest_example =
    derive_base_amount-nearest calendar (pos 123450) (record { mantissa = 9; scale = 1 })
      (record { product_exact = λ a b places more bits. refl; product_zero = λ a b empty. empty })
      (omega arith) (omega arith)

-- 1 / 0.91 in 10 ^ -12
abbrev inverse_rate : Decimal
inverse_rate = record { mantissa = 10 ^ 24 / 910000000000; scale = 12 }

abbrev stored_rate : FxRate → Decimal
stored_rate r = record { mantissa = r.rate; scale = 12 }

lookup_lem_example :
    (r : FxRate) × (applies "EUR" "USD" 130 r ≡ true)
    × IsLatest "EUR" "USD" 130 r rates
    × (r.rate ≢ 0)
    × ((s : FxRate) × (applies "EUR" "USD" 130 s ≡ true)
        × IsLatest "EUR" "USD" 130 s rates
        × (((s.base_currency ≡ "EUR") × (inverse_rate ≡ stored_rate r))
            ⊎ ((s.base_currency ≡ "USD") × (inverse_rate ≡ calendar.reciprocal (stored_rate r)))))
unfolding lookup latest applies prefer precedes rate_of
lookup_lem_example = lookup_lem calendar rates rates "EUR" "USD" 130 inverse_rate refl refl
