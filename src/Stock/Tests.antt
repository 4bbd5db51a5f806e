-- ===== src/Stock/Tests.antt =====
-- The theorems about valuation at concrete movements.
use openaccounting.Prelude.{ℕ, ◌/◌, List, [], ◌∷◌}
use openaccounting.Prelude.Int.{ℤ, pos, negsuc}
use openaccounting.Stock.Valuation.{Movement}

abbrev rounded_down : ℤ → ℕ → ℤ
rounded_down (pos v) n = pos (v / n)
rounded_down (negsuc v) n = pos 0

-- Ten at 5, ten at 7, twelve sold.
abbrev movements : List Movement
movements =
    record { qty = pos 10; unit_cost = pos 5 }
    ∷ record { qty = pos 10; unit_cost = pos 7 }
    ∷ record { qty = negsuc 11; unit_cost = pos 0 }
    ∷ []
