-- ===== src/Lots/Fifo.antt =====
-- `insert_lot`, `fifo_match` and `remaining_qty`. A quantity is a whole number of 10^-8, as its
-- NUMERIC(20,8) column holds it, and so are unit costs and proceeds; a gain is a whole number of
-- 10^-16, exactly the product. The identifiers and times that the database gives are arguments.
use openaccounting.Prelude.{
  ℕ, zero, suc, ◌-◌, ◌*◌, String, Bool, ◌&&◌, ◌||◌, Option, none, some, List, [], ◌∷◌, ◌++◌, ltb,
  leb, ◌==◌, if◌then◌else◌, length,
}
use openaccounting.Prelude.Int.{ℤ, sub_ℕ}
use openaccounting.Prelude.Tables.{select}
use openaccounting.Prelude.Sums.{sum, sum_ℤ}
use openaccounting.Prelude.Results.{Result, ok, ◌>>◌, fail_if}

pub record InvestmentLot : Type 0 where
  pub id : ℕ
  pub account_id : ℕ
  pub acquired_at : ℕ
  pub qty : ℕ
  pub unit_cost : ℕ
  pub currency : String
  pub source_txn_id : ℕ

pub record InvestmentDisposal : Type 0 where
  pub id : ℕ
  pub lot_id : ℕ
  pub qty : ℕ
  pub unit_proceeds : ℕ
  pub disposed_at : ℕ
  pub source_txn_id : ℕ
  pub realized_gain : ℤ

pub data LotError : Type 0 where
  check_violation : LotError

-- INSERT INTO investment_lots, with CHECK (qty > 0)
unfoldable pub insert_lot :
    ℕ → ℕ → ℕ → ℕ → ℕ → String → ℕ → List InvestmentLot → Result LotError (List InvestmentLot)
insert_lot id account acquired_at qty unit_cost currency txn lots =
    fail_if (qty == 0) check_violation
    >> ok (
        lots
        ++ record {
          id = id;
          account_id = account;
          acquired_at = acquired_at;
          qty = qty;
          unit_cost = unit_cost;
          currency = currency;
          source_txn_id = txn;
        }
          ∷ [])

-- COALESCE(SUM(d.qty), 0) over the disposals of a lot
unfoldable pub sold : ℕ → List InvestmentDisposal → ℕ
sold lot ds = sum (λ (d : InvestmentDisposal). if d.lot_id == lot then d.qty else 0) ds

-- `l.account_id = $1`, HAVING (l.qty - COALESCE(SUM(d.qty), 0)) > 0
abbrev pub is_open : ℕ → List InvestmentDisposal → InvestmentLot → Bool
is_open account ds l = l.account_id == account && ltb (sold l.id ds) l.qty

-- ORDER BY l.acquired_at ASC, l.id ASC
abbrev pub precedes : InvestmentLot → InvestmentLot → Bool
precedes a b = ltb a.acquired_at b.acquired_at || (a.acquired_at == b.acquired_at && leb a.id b.id)

abbrev pub older : InvestmentLot → Option InvestmentLot → InvestmentLot
older l none = l
older l (some best) = if precedes l best then l else best

-- LIMIT 1
unfoldable pub candidate : ℕ → List InvestmentDisposal → List InvestmentLot → Option InvestmentLot
candidate account ds [] = none
candidate account ds (l ∷ ls) =
    let best = candidate account ds ls in if is_open account ds l then some (older l best) else best

abbrev pub push :
    InvestmentDisposal → Option (List InvestmentDisposal) → Option (List InvestmentDisposal)
push d none = none
push d (some ds) = some (d ∷ ds)

-- What one call is given besides the tables.
pub record Sale : Type 0 where
  pub account_id : ℕ
  pub unit_proceeds : ℕ
  pub disposed_at : ℕ
  pub source_txn_id : ℕ

-- `if available <= remaining { available } else { remaining }`
abbrev pub take_of : List InvestmentDisposal → InvestmentLot → ℕ → ℕ
take_of ds l remaining =
    if leb (l.qty - sold l.id ds) remaining then l.qty - sold l.id ds else remaining

abbrev pub disposal : Sale → ℕ → InvestmentLot → ℕ → InvestmentDisposal
disposal s id l take = record {
  id = id;
  lot_id = l.id;
  qty = take;
  unit_proceeds = s.unit_proceeds;
  disposed_at = s.disposed_at;
  source_txn_id = s.source_txn_id;
  realized_gain = sub_ℕ (take * s.unit_proceeds) (take * l.unit_cost);
}

-- `while remaining > Decimal::ZERO`, and the candidate
abbrev pub next_lot : Sale → ℕ → List InvestmentDisposal → List InvestmentLot → Option InvestmentLot
next_lot s remaining ds lots = if remaining == 0 then none else candidate s.account_id ds lots

-- The loop, with rounds left; none says that they were not enough. `ids n` is the identifier given
-- to the disposal with `n` rounds left after it.
unfoldable pub fifo_loop :
    ℕ
    → (ℕ → ℕ)
    → Sale
    → List InvestmentLot
    → ℕ
    → List InvestmentDisposal
    → Option (List InvestmentDisposal)
fifo_loop zero ids s lots remaining ds = none
fifo_loop (suc k) ids s lots remaining ds = elim (next_lot s remaining ds lots) [
  | none ↦ some []
  | some l ↦
      let take = take_of ds l remaining in
      push (disposal s (ids k) l take)
        (fifo_loop k ids s lots (remaining - take) (ds ++ disposal s (ids k) l take ∷ []))
]

-- The disposals that a call inserts. It needs no more rounds than there are lots, and one.
unfoldable pub fifo_match :
    (ℕ → ℕ)
    → Sale
    → ℕ
    → List InvestmentLot
    → List InvestmentDisposal
    → Option (List InvestmentDisposal)
fifo_match ids s sell_qty lots ds = fifo_loop (suc (length lots)) ids s lots sell_qty ds

unfoldable pub remaining_qty : ℕ → List InvestmentLot → List InvestmentDisposal → ℤ
remaining_qty account lots ds =
    sum_ℤ (λ (l : InvestmentLot). sub_ℕ l.qty (sold l.id ds))
      (select (λ (l : InvestmentLot). l.account_id == account) lots)
