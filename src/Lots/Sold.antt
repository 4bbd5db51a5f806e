-- ===== src/Lots/Sold.antt =====
-- A sale ends, sells the smaller of what is asked and what is open, and oversells no lot.
use openaccounting.Prelude.{
  ℕ, zero, suc, ◌+◌, ◌-◌, ◌<◌, ◌≤◌, Bool, true, false, none, some, List, [], ◌∷◌, ◌++◌, ◌≡◌, refl,
  ap, sym, arith, leb, ◌==◌, if◌then◌else◌, Bool-cases, Option-cases, inl, inr, length, min,
}
use openaccounting.Prelude.Int.{pos, pos_part, sub_ℕ, ◌+ℤ◌, int_laws, parts}
use openaccounting.Prelude.Tables.{count}
use openaccounting.Prelude.Sums.{sum}
use openaccounting.Lots.Fifo.{
  InvestmentLot, InvestmentDisposal, Sale, sold, is_open, candidate, take_of, disposal, next_lot,
  fifo_loop, fifo_match, remaining_qty,
}
use openaccounting.Lots.Open.{
  IsKeyed, IsIn, open_total, open_count, IsWithin, candidate-none, candidate-IsIn, open_lot-IsTaken,
}

abbrev pub total_qty : List InvestmentDisposal → ℕ
total_qty new = sum (λ (d : InvestmentDisposal). d.qty) new

pub append_one :
    (ds new : List InvestmentDisposal) (d : InvestmentDisposal)
    → (ds ++ d ∷ []) ++ new ≡ ds ++ d ∷ new
append_one [] new d = refl
append_one (x ∷ ds) new d = ap (λ z. x ∷ z) (append_one ds new d)

append_none : (ds : List InvestmentDisposal) → ds ++ [] ≡ ds
append_none [] = refl
append_none (x ∷ ds) = ap (λ z. x ∷ z) (append_none ds)

-- What a loop that starts from `ds` has done when it ends with `new`.
abbrev IsSold :
    ℕ → List InvestmentLot → ℕ → List InvestmentDisposal → List InvestmentDisposal → Type 0
IsSold account lots remaining ds new =
    (total_qty new ≡ min remaining (open_total account ds lots))
    × (open_total account (ds ++ new) lots + total_qty new ≡ open_total account ds lots)
    × IsWithin (ds ++ new) lots

nothing-IsSold :
    (account : ℕ) (lots : List InvestmentLot) (remaining : ℕ) (ds : List InvestmentDisposal)
    → min remaining (open_total account ds lots) ≡ 0
    → IsWithin ds lots
    → IsSold account lots remaining ds []
nothing-IsSold account lots remaining ds h w = rw (append_none ds) (sym h, omega arith, w)

-- One round, and the rounds after it.
round-IsSold :
    (s : Sale) (id : ℕ) (lots : List InvestmentLot) (remaining : ℕ)
    (ds new : List InvestmentDisposal) (l : InvestmentLot)
    → IsKeyed lots
    → IsIn l lots
    → is_open s.account_id ds l ≡ true
    → IsSold s.account_id lots
        (remaining - take_of ds l remaining)
        (ds ++ disposal s id l (take_of ds l remaining) ∷ [])
        new
    → IsSold s.account_id lots remaining ds (disposal s id l (take_of ds l remaining) ∷ new)
round-IsSold s id lots remaining ds new l k i o (total, left, within) =
    let d = disposal s id l (take_of ds l remaining) in
    let small : d.qty ≤ l.qty - sold l.id ds = ground arith in
    let bound : d.qty ≤ remaining = ground arith in
    let taken = (open_lot-IsTaken s.account_id ds d l lots k i o refl small).0 in
    (
      ground (arith, total, taken, bound),
      rw (sym (append_one ds new d)) (omega (arith, left, taken)),
      rw (sym (append_one ds new d)) within,
    )

-- The rounds that a loop still has before it.
abbrev rounds : ℕ → List InvestmentDisposal → List InvestmentLot → ℕ → ℕ
rounds account ds lots remaining = if remaining == 0 then 0 else open_count account ds lots

rounds-take :
    (s : Sale) (id : ℕ) (lots : List InvestmentLot) (remaining : ℕ) (ds : List InvestmentDisposal)
    (l : InvestmentLot)
    → IsKeyed lots
    → IsIn l lots
    → is_open s.account_id ds l ≡ true
    → rounds s.account_id
        (ds ++ disposal s id l (take_of ds l remaining) ∷ [])
        lots
        (remaining - take_of ds l remaining)
      < open_count s.account_id ds lots
rounds-take s id lots remaining ds l k i o =
    let left = l.qty - sold l.id ds in
    let whole = disposal s id l left in
    let some_open =
      (open_lot-IsTaken s.account_id ds whole l lots k i o refl (omega arith)).2 refl in
    elim (Bool-cases (leb left remaining)) [
      | inl fits ↦ rw fits (ground (arith, some_open))
      | inr exceeds ↦ rw exceeds (ground (arith, some_open))
    ]

fifo_loop-IsSold :
    (k : ℕ) (ids : ℕ → ℕ) (s : Sale) (lots : List InvestmentLot) (remaining : ℕ)
    (ds : List InvestmentDisposal)
    → IsKeyed lots
    → IsWithin ds lots
    → rounds s.account_id ds lots remaining < k
    → (new : List InvestmentDisposal) × (fifo_loop k ids s lots remaining ds ≡ some new)
      × IsSold s.account_id lots remaining ds new
unfolding fifo_loop
fifo_loop-IsSold zero ids s lots remaining ds key w n = absurd (omega arith)
fifo_loop-IsSold (suc k) ids s lots remaining ds key w n =
    elim (Option-cases (next_lot s remaining ds lots)) [
      | inl ended ↦
          let none_left : min remaining (open_total s.account_id ds lots) ≡ 0 =
            ended_min s lots remaining ds ended in
          (
            [],
            rw (fifo_loop, ended) refl,
            nothing-IsSold s.account_id lots remaining ds none_left w,
          )
      | inr (l, found) ↦
          let picked = next-candidate s lots remaining ds l found in
          let (i, o) = candidate-IsIn s.account_id ds lots l picked.1 in
          let take = take_of ds l remaining in
          let d = disposal s (ids k) l take in
          let taken = open_lot-IsTaken s.account_id ds d l lots key i o refl (ground arith) in
          let fewer = rounds-take s (ids k) lots remaining ds l key i o in
          let (new, e, done) =
            fifo_loop-IsSold k ids s lots (remaining - take) (ds ++ d ∷ []) key (taken.3 w)
              (ground (arith, n, fewer, picked.0)) in
          (
            d ∷ new,
            rw (fifo_loop, found) (rw e refl),
            round-IsSold s (ids k) lots remaining ds new l key i o done,
          )
    ]
  where
    ended_min :
        (s : Sale) (lots : List InvestmentLot) (remaining : ℕ) (ds : List InvestmentDisposal)
        → next_lot s remaining ds lots ≡ none
        → min remaining (open_total s.account_id ds lots) ≡ 0
    ended_min s lots remaining ds h = elim (Bool-cases (remaining == 0)) [
      | inl done ↦ ground (arith, done)
      | inr more ↦
          let empty = candidate-none s.account_id ds lots (ground (arith, h, more)) in
          ground (arith, empty)
    ]

    next-candidate :
        (s : Sale) (lots : List InvestmentLot) (remaining : ℕ) (ds : List InvestmentDisposal)
        (l : InvestmentLot)
        → next_lot s remaining ds lots ≡ some l
        → ((remaining == 0) ≡ false) × (candidate s.account_id ds lots ≡ some l)
    next-candidate s lots remaining ds l h = elim (Bool-cases (remaining == 0)) [
      | inl done ↦ absurd (ground (arith, h, done))
      | inr more ↦ (more, ground (arith, h, more))
    ]

remaining_qty-open_total :
    (account : ℕ) (ds : List InvestmentDisposal) (lots : List InvestmentLot)
    → IsWithin ds lots
    → remaining_qty account lots ds ≡ pos (open_total account ds lots)
unfolding remaining_qty
remaining_qty-open_total account ds [] w = refl
remaining_qty-open_total account ds (l ∷ ls) w =
    let small = w.0 in
    let rest = remaining_qty-open_total account ds ls w.1 in
    elim (Bool-cases (l.account_id == account)) [
      | inr other ↦ rw other (omega (int_laws, parts rest))
      | inl here ↦
          let whole : sub_ℕ l.qty (sold l.id ds) ≡ pos (l.qty - sold l.id ds) =
            ground (arith, small) in
          rw (here, whole) (omega (int_laws, parts rest))
    ]

count-length : (q : InvestmentLot → Bool) (lots : List InvestmentLot) → count q lots ≤ length lots
count-length q [] = omega arith
count-length q (l ∷ ls) = ground (arith, count-length q ls)

-- If the identifiers of the lots are unique and no lot is sold beyond its quantity, then a sale ends
-- after at most one round for each lot and one more, the disposals that it inserts have the smaller
-- of the quantity asked and the remaining quantity of the account, the remaining quantity falls by
-- it, and still no lot is sold beyond its quantity.
pub fifo_match-remaining_qty :
    (ids : ℕ → ℕ) (s : Sale) (sell_qty : ℕ) (lots : List InvestmentLot)
    (ds : List InvestmentDisposal)
    → IsKeyed lots
    → IsWithin ds lots
    → (new : List InvestmentDisposal) × (fifo_match ids s sell_qty lots ds ≡ some new)
      × (total_qty new ≡ min sell_qty (pos_part (remaining_qty s.account_id lots ds)))
      × (remaining_qty s.account_id lots (ds ++ new) +ℤ pos (total_qty new)
          ≡ remaining_qty s.account_id lots ds)
      × IsWithin (ds ++ new) lots
unfolding fifo_match
fifo_match-remaining_qty ids s sell_qty lots ds key w =
    let few = count-length (is_open s.account_id ds) lots in
    let (new, e, (total, left, within)) =
      fifo_loop-IsSold (suc (length lots)) ids s lots sell_qty ds key w (ground (arith, few)) in
    let start = remaining_qty-open_total s.account_id ds lots w in
    let finish = remaining_qty-open_total s.account_id (ds ++ new) lots within in
    (new, e, rw start total, omega (int_laws, parts start, parts finish, left), within)
