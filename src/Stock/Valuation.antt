-- ===== src/Stock/Valuation.antt =====
-- `valuate` (src/domain/inventory_valuation.rs). A money amount is a whole number of 10^-28, the
-- finest scale of a `Decimal`. Where the arithmetic on `i32` overflows, the model stops.
use openaccounting.Prelude.{
  ℕ, suc, ◌+◌, ◌-◌, not, String, Option, none, some, List, [], ◌∷◌, ◌++◌, if◌then◌else◌, ltb, ◌==◌,
  min, str_eq,
}
use openaccounting.Prelude.Int.{ℤ, pos, negsuc, ◌+ℤ◌, ◌-ℤ◌, ◌*ℤ◌}
use openaccounting.Prelude.Tables.{select}
use openaccounting.Prelude.Results.{Result, ok, ◌>>=◌, ◌>>◌, fail_if}

pub data ValuationMethod : Type 0 where
  fifo average : ValuationMethod

unfoldable pub as_str : ValuationMethod → String
as_str fifo = "fifo"
as_str average = "average"

unfoldable pub parse_method : String → Option ValuationMethod
parse_method s =
    if str_eq s "fifo" then some fifo else if str_eq s "average" then some average else none

pub record Movement : Type 0 where
  pub qty : ℤ
  pub unit_cost : ℤ

pub data StockError : Type 0 where
  -- "sale of {need} exceeds on-hand {on_hand}"
  oversold : ℕ → ℕ → StockError
  overflow : StockError

pub record Layer : Type 0 where
  pub qty : ℕ
  pub unit_cost : ℤ

abbrev pub check_i32 : ℕ → Result StockError (Unit {0})
check_i32 n = fail_if (not (ltb n 2147483648)) overflow

unfoldable pub on_hand : List Layer → ℕ
on_hand [] = 0
on_hand (l ∷ layers) = l.qty + on_hand layers

-- The loop that takes `need` units from the front.
unfoldable pub consume : ℕ → List Layer → List Layer
consume need [] = []
consume need (l ∷ layers) =
    let take = min l.qty need in
    let rest = consume (need - take) layers in
    if need == 0 then l ∷ layers else record l { qty = l.qty - take } ∷ rest

-- `layers.retain(|(q, _)| *q > 0)`
unfoldable pub retain : List Layer → List Layer
retain layers = select (λ (l : Layer). ltb 0 l.qty) layers

unfoldable pub fifo_step : ℤ → ℤ → List Layer → Result StockError (List Layer)
fifo_step (pos q) cost layers = ok (layers ++ record { qty = q; unit_cost = cost } ∷ [])
fifo_step (negsuc k) cost layers = do
  check_i32 (suc k)
  check_i32 (on_hand layers)
  fail_if (ltb (on_hand layers) (suc k)) (oversold (suc k) (on_hand layers))
  ok (retain (consume (suc k) layers))

unfoldable pub fifo_loop : List Movement → List Layer → Result StockError (List Layer)
fifo_loop [] layers = ok layers
fifo_loop (m ∷ movements) layers =
    fifo_step m.qty m.unit_cost layers >>= λ next. fifo_loop movements next

unfoldable pub layers_value : List Layer → ℤ
layers_value [] = pos 0
layers_value (l ∷ layers) = pos l.qty *ℤ l.unit_cost +ℤ layers_value layers

unfoldable pub valuate_fifo : List Movement → Result StockError (ℕ × ℤ)
valuate_fifo movements = fifo_loop movements [] >>= λ layers.
    check_i32 (on_hand layers) >> ok (on_hand layers, layers_value layers)

-- `value / Decimal::from(qty)` rounds; it is a parameter.
module _ (quotient : ℤ → ℕ → ℤ) where
  unfoldable pub average_step : ℤ → ℤ → ℕ → ℤ → Result StockError (ℕ × ℤ)
  average_step (pos q) cost qty value = check_i32 (qty + q) >> ok (qty + q, value +ℤ pos q *ℤ cost)
  average_step (negsuc k) cost qty value = do
    check_i32 (suc k)
    fail_if (ltb qty (suc k)) (oversold (suc k) qty)
    let avg = if ltb 0 qty then quotient value qty else pos 0 in
        ok (qty - suc k, if (qty - suc k) == 0 then pos 0 else value -ℤ pos (suc k) *ℤ avg)

  unfoldable pub average_loop : List Movement → ℕ → ℤ → Result StockError (ℕ × ℤ)
  average_loop [] qty value = ok (qty, value)
  average_loop (m ∷ movements) qty value =
      average_step m.qty m.unit_cost qty value >>= λ next. average_loop movements next.0 next.1

  unfoldable pub valuate_average : List Movement → Result StockError (ℕ × ℤ)
  valuate_average movements = average_loop movements 0 (pos 0)

  unfoldable pub valuate : ValuationMethod → List Movement → Result StockError (ℕ × ℤ)
  valuate fifo movements = valuate_fifo movements
  valuate average movements = valuate_average movements
