-- ===== src/Prelude/Foreign.antt =====
-- What the program takes from other crates and only calls: the calendar of `chrono` and the
-- multiplication and division of `rust_decimal`. A date is its day number, which orders dates as `chrono` does.
use openaccounting.Prelude.{ℕ, ◌≤◌, ◌<◌, ◌+◌, ◌*◌, ◌^◌, ◌≡◌, ◌↔◌, Option, some}

-- A non-negative decimal number, mantissa / 10 ^ scale.
pub record Decimal : Type 0 where
  pub mantissa : ℕ
  pub scale : ℕ

pub record Env : Type 0 where
  -- `Datelike::year`
  pub year_of : ℕ → ℕ
  -- `NaiveDate::from_ymd_opt(y, 12, 31)`
  pub december_31 : ℕ → Option ℕ
  -- The product of two decimals, which `rust_decimal` rounds if it has more than 28 places or more
  -- than 96 bits.
  pub product : Decimal → Decimal → Decimal
  -- `Decimal::ONE / d`
  pub reciprocal : Decimal → Decimal

-- The last day of a year bounds exactly the dates of that year and of the years before.
pub record IsCalendar (env : Env) : Type 0 where
  pub december_31_bounds : (y d e : ℕ) → env.december_31 y ≡ some e → (d ≤ e) ↔ (env.year_of d ≤ y)

-- The product of two decimals is exact if it has at most 28 places and fits in 96 bits, and it is
-- zero, at whatever scale, if one of them is.
pub record IsExact (env : Env) : Type 0 where
  pub product_exact :
      (a b : Decimal)
      → a.scale + b.scale ≤ 28
      → 0 < a.mantissa * b.mantissa
      → a.mantissa * b.mantissa < 2 ^ 96
      → env.product a b ≡ record { mantissa = a.mantissa * b.mantissa; scale = a.scale + b.scale }
  pub product_zero : (a b : Decimal) → a.mantissa * b.mantissa ≡ 0 → (env.product a b).mantissa ≡ 0
