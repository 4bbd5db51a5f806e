-- ===== src/Fx/Rounding.antt =====
-- The derived base-currency amount is the nearest whole number of cents, of the same sign.
use native.Mathlib.Nat.{div-add-mod, mod-lt, pow-suc}
use openaccounting.Prelude.{
  ℕ, zero, suc, ◌+◌, ◌*◌, ◌^◌, ◌≤◌, ◌<◌, ◌≡◌, refl, subst, arith, ◌==◌, Bool-cases, inl, inr,
}
use openaccounting.Prelude.Int.{ℤ, pos, negsuc, abs, pos_part, neg_part}
use openaccounting.Prelude.Foreign.{Decimal, Env, IsExact}
use openaccounting.Fx.Convert.{round_half_up, round_to_cents, of_amount, derive_base_amount}

ten_pow_pos : (n : ℕ) → 0 < 10 ^ n
ten_pow_pos zero = omega arith
ten_pow_pos (suc n) = omega (arith, pow-suc 10 n, ten_pow_pos n)

-- The rounded quotient is within half a unit of the exact one.
round_half_up_nearest :
    (a b : ℕ)
    → 0 < b
    → (2 * (round_half_up a b * b) ≤ 2 * a + b) × (2 * a < 2 * (round_half_up a b * b) + b)
unfolding round_half_up
round_half_up_nearest a b h =
    let e = div-add-mod (2 * a + b) (2 * b) in
    let l = mod-lt (2 * a + b) {m = 2 * b} (omega arith) in omega (arith, e, l)

round_half_up-zero : (b : ℕ) → 0 < b → round_half_up 0 b ≡ 0
round_half_up-zero b h = let (low, _) = round_half_up_nearest 0 b h in grind arith

four_places : (s : ℕ) → 10 ^ (4 + s) ≡ 100 * (100 * 10 ^ s)
four_places s =
    let four : 4 + s ≡ suc (suc (suc (suc s))) = omega arith in
    rw four (
      omega (
        arith,
        pow-suc 10 (suc (suc (suc s))),
        pow-suc 10 (suc (suc s)),
        pow-suc 10 (suc s),
        pow-suc 10 s,
      ))

-- The cents of an exact product are the nearest ones.
nearest_cents :
    (env : Env) (n : ℕ) (rate : Decimal)
    → IsExact env
    → 4 + rate.scale ≤ 28
    → n * rate.mantissa < 2 ^ 96
    → let k = round_to_cents (env.product (of_amount n) rate) in
      (2 * (k * (100 * 10 ^ rate.scale)) ≤ 2 * (n * rate.mantissa) + 100 * 10 ^ rate.scale)
      × (2 * (n * rate.mantissa) < 2 * (k * (100 * 10 ^ rate.scale)) + 100 * 10 ^ rate.scale)
unfolding round_to_cents
nearest_cents env n rate exact places bits = elim (Bool-cases (n * rate.mantissa == 0)) [
  | inl empty ↦
      let none_left : n * rate.mantissa ≡ 0 = ground arith in
      let product = exact.product_zero (of_amount n) rate none_left in
      let positive = ten_pow_pos rate.scale in
      let zero_cents = round_half_up-zero _ (ten_pow_pos (env.product (of_amount n) rate).scale) in
      rw (product, none_left, zero_cents) (omega arith, omega (arith, positive))
  | inr some_left ↦
      let more : 0 < n * rate.mantissa = ground arith in
      let product = exact.product_exact (of_amount n) rate places more bits in
      let scale = four_places rate.scale in
      let positive = ten_pow_pos rate.scale in
      let (low, high) =
        round_half_up_nearest (100 * (n * rate.mantissa)) (100 * (100 * 10 ^ rate.scale))
          (omega (arith, positive)) in
      rw (product, scale) (omega (arith, low), omega (arith, high))
]

no_cents : (k t : ℕ) → 0 < t → 2 * (k * (100 * t)) ≤ 100 * t → k ≡ 0
no_cents zero t h l = refl
no_cents (suc k) t h l = absurd (grind arith)

round_zero :
    (env : Env) (n : ℕ) (rate : Decimal)
    → IsExact env
    → 4 + rate.scale ≤ 28
    → n * rate.mantissa < 2 ^ 96
    → n ≡ 0
    → 100 * round_to_cents (env.product (of_amount n) rate) ≡ 0
round_zero env n rate exact places bits e =
    let (low, _) = nearest_cents env n rate exact places bits in
    let positive = ten_pow_pos rate.scale in
    let none_left : n * rate.mantissa ≡ 0 = rw e (omega arith) in
    let zero_cents =
      no_cents (round_to_cents (env.product (of_amount n) rate)) (10 ^ rate.scale) positive
        (omega (arith, low, none_left)) in
    omega (arith, zero_cents)

-- Suppose that products of at most 28 places and 96 bits are exact, and that the product of the
-- amount and the rate has no more. Then the exact amount lies within half a cent of the derived one:
-- for an amount `a` and a rate `m / 10 ^ s` the magnitude of the result is a whole number `k` of
-- cents with k - 1/2 ≤ |a| * m / (100 * 10 ^ s) < k + 1/2, and it is negative only if `a` is,
-- positive only if `a` is.
pub derive_base_amount-nearest :
    (env : Env) (a : ℤ) (rate : Decimal)
    → IsExact env
    → 4 + rate.scale ≤ 28
    → abs a * rate.mantissa < 2 ^ 96
    → (k : ℕ) × (abs (derive_base_amount env a rate) ≡ 100 * k)
      × (2 * (k * (100 * 10 ^ rate.scale)) ≤ 2 * (abs a * rate.mantissa) + 100 * 10 ^ rate.scale)
      × (2 * (abs a * rate.mantissa) < 2 * (k * (100 * 10 ^ rate.scale)) + 100 * 10 ^ rate.scale)
      × (neg_part a ≡ 0 → neg_part (derive_base_amount env a rate) ≡ 0)
      × (pos_part a ≡ 0 → pos_part (derive_base_amount env a rate) ≡ 0)
unfolding derive_base_amount
derive_base_amount-nearest env (pos n) rate exact places bits =
    let magnitude : abs (pos n) ≡ n = omega arith in
    let fits : n * rate.mantissa < 2 ^ 96 =
      subst (λ t. t * rate.mantissa < 2 ^ 96) magnitude bits in
    let (low, high) = nearest_cents env n rate exact places fits in
    (
      round_to_cents (env.product (of_amount n) rate),
      omega arith,
      omega (arith, low),
      omega (arith, high),
      λ e. refl,
      round_zero env n rate exact places fits,
    )
derive_base_amount-nearest env (negsuc n) rate exact places bits =
    let magnitude : abs (negsuc n) ≡ n + 1 = omega arith in
    let fits : (n + 1) * rate.mantissa < 2 ^ 96 =
      subst (λ t. t * rate.mantissa < 2 ^ 96) magnitude bits in
    let (low, high) = nearest_cents env (n + 1) rate exact places fits in
    (
      round_to_cents (env.product (of_amount (n + 1)) rate),
      ground arith,
      omega (arith, low),
      omega (arith, high),
      λ e. ground arith,
      λ e. ground arith,
    )
