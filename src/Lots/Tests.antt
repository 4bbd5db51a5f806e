-- ===== src/Lots/Tests.antt =====
-- The theorems about lots at two lots and a sale that crosses them.
use openaccounting.Prelude.{ℕ, some, List, [], ◌∷◌, ◌++◌, ◌≡◌, refl, arith, All, min}
use openaccounting.Prelude.Int.{ℤ, pos, pos_part, negsuc, ◌+ℤ◌}
use openaccounting.Lots.Fifo.{
  InvestmentLot, InvestmentDisposal, Sale, sold, candidate, fifo_loop, fifo_match, remaining_qty,
}
use openaccounting.Lots.Open.{IsWithin}
use openaccounting.Lots.Sold.{total_qty, fifo_match-remaining_qty}
use openaccounting.Lots.Order.{IsOldest, fifo_match-IsOldest}

abbrev lot : ℕ → ℕ → ℕ → ℕ → InvestmentLot
lot id date qty cost = record {
  id = id;
  account_id = 1;
  acquired_at = date;
  qty = qty;
  unit_cost = cost;
  currency = "EUR";
  source_txn_id = id;
}

abbrev lots : List InvestmentLot
lots = lot 5 200 4 70 ∷ lot 6 100 3 50 ∷ []

abbrev sale : Sale
sale = record { account_id = 1; unit_proceeds = 60; disposed_at = 300; source_txn_id = 9 }

abbrev disposed : ℕ → ℕ → ℕ → ℤ → InvestmentDisposal
disposed id lot qty gain = record {
  id = id;
  lot_id = lot;
  qty = qty;
  unit_proceeds = 60;
  disposed_at = 300;
  source_txn_id = 9;
  realized_gain = gain;
}

-- Five are sold: the three of the older lot at a gain, and two of the other at a loss.
abbrev five : List InvestmentDisposal
five = disposed 2 6 3 (pos 30) ∷ disposed 1 5 2 (negsuc 19) ∷ []

abbrev same_id : ℕ → ℕ
same_id n = n

fifo_match-remaining_qty_example :
    (new : List InvestmentDisposal) × (fifo_match same_id sale 5 lots [] ≡ some new)
    × (total_qty new ≡ min 5 (pos_part (remaining_qty 1 lots [])))
    × (remaining_qty 1 lots ([] ++ new) +ℤ pos (total_qty new) ≡ remaining_qty 1 lots [])
    × IsWithin ([] ++ new) lots
unfolding sold
fifo_match-remaining_qty_example =
    fifo_match-remaining_qty same_id sale 5 lots [] (refl, (refl, tt))
      (omega arith, (omega arith, tt))

fifo_match-IsOldest_example : All (IsOldest 1 lots ([] ++ five)) five
unfolding fifo_match fifo_loop candidate sold
fifo_match-IsOldest_example =
    fifo_match-IsOldest same_id sale 5 lots [] five (refl, (refl, tt)) refl
