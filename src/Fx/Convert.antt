-- ===== src/Fx/Convert.antt =====
-- The derivation of a base-currency amount (src/domain/fx.rs, `derive_base_amount`).
use openaccounting.Prelude.{ℕ, ◌+◌, ◌*◌, ◌/◌, ◌^◌}
use openaccounting.Prelude.Int.{ℤ, pos, negsuc, sub_ℕ}
use openaccounting.Prelude.Foreign.{Decimal, Env}

-- a / b rounded to the nearest whole number, a half upwards
unfoldable pub round_half_up : ℕ → ℕ → ℕ
round_half_up a b = (2 * a + b) / (2 * b)

-- `round_dp_with_strategy(2, MidpointAwayFromZero)` of a magnitude, in cents: rounded half up.
unfoldable pub round_to_cents : Decimal → ℕ
unfolding round_half_up
round_to_cents d = round_half_up (100 * d.mantissa) (10 ^ d.scale)

-- The magnitude of an amount: a number of ten-thousandths.
abbrev pub of_amount : ℕ → Decimal
of_amount n = record { mantissa = n; scale = 4 }

-- The product, rounded to two places; the sign of the amount is kept. Amounts count ten-thousandths,
-- so a cent is 100 of them.
unfoldable pub derive_base_amount : Env → ℤ → Decimal → ℤ
unfolding round_to_cents
derive_base_amount env (pos n) rate = pos (100 * round_to_cents (env.product (of_amount n) rate))
derive_base_amount env (negsuc n) rate =
    sub_ℕ 0 (100 * round_to_cents (env.product (of_amount (n + 1)) rate))
