-- ===== src/Lots/Open.antt =====
-- What one disposal changes: how much is open, and how many lots are.
use openaccounting.Prelude.{
  ℕ, ◌+◌, ◌-◌, ◌<◌, ◌≤◌, true, false, none, some, List, [], ◌∷◌, ◌++◌, ◌≡◌, ◌⊎◌, refl, sym, subst,
  arith, ◌==◌, if◌then◌else◌, Bool-cases, Option-cases, inl, inr, All,
}
use openaccounting.Prelude.Tables.{count, exists}
use openaccounting.Prelude.Sums.{sum, sum-append}
use openaccounting.Lots.Fifo.{InvestmentLot, InvestmentDisposal, sold, is_open, precedes, candidate}

-- The primary key of the lots.
abbrev pub IsKeyed : List InvestmentLot → Type 0
IsKeyed [] = Unit
IsKeyed (l ∷ ls) = (exists (λ (b : InvestmentLot). b.id == l.id) ls ≡ false) × IsKeyed ls

abbrev pub IsIn : InvestmentLot → List InvestmentLot → Type 0
IsIn l [] = ⊥
IsIn l (x ∷ xs) = (l ≡ x) ⊎ IsIn l xs

abbrev pub open_qty : ℕ → List InvestmentDisposal → InvestmentLot → ℕ
open_qty account ds l = if l.account_id == account then l.qty - sold l.id ds else 0

abbrev pub open_total : ℕ → List InvestmentDisposal → List InvestmentLot → ℕ
open_total account ds lots = sum (open_qty account ds) lots

abbrev pub open_count : ℕ → List InvestmentDisposal → List InvestmentLot → ℕ
open_count account ds lots = count (is_open account ds) lots

pub sold-append :
    (lot : ℕ) (ds : List InvestmentDisposal) (d : InvestmentDisposal)
    → sold lot (ds ++ d ∷ []) ≡ sold lot ds + (if d.lot_id == lot then d.qty else 0)
unfolding sold
sold-append lot ds d = omega (
  arith,
  sum-append (λ (x : InvestmentDisposal). if x.lot_id == lot then x.qty else 0) ds (d ∷ []),
)

-- Nothing is open where no candidate is found.
pub candidate-none :
    (account : ℕ) (ds : List InvestmentDisposal) (lots : List InvestmentLot)
    → candidate account ds lots ≡ none
    → open_total account ds lots ≡ 0
unfolding candidate
candidate-none account ds [] h = refl
candidate-none account ds (l ∷ ls) h = ground (arith, candidate-none account ds ls)

pub candidate-IsIn :
    (account : ℕ) (ds : List InvestmentDisposal) (lots : List InvestmentLot) (l : InvestmentLot)
    → candidate account ds lots ≡ some l
    → IsIn l lots × (is_open account ds l ≡ true)
unfolding candidate
candidate-IsIn account ds [] l h = absurd (ground arith)
candidate-IsIn account ds (x ∷ xs) l h = elim (Bool-cases (is_open account ds x)) [
  | inr shut ↦
      let rest = candidate-IsIn account ds xs l (ground (arith, h, shut)) in (inr rest.0, rest.1)
  | inl here ↦ elim (Option-cases (candidate account ds xs)) [
    | inl last ↦ let e : l ≡ x = ground (arith, h, here, last) in (inl e, rw e here)
    | inr (b, found) ↦ elim (Bool-cases (precedes x b)) [
      | inl first ↦ let e : l ≡ x = ground (arith, h, here, found, first) in (inl e, rw e here)
      | inr later ↦
          let e : l ≡ b = ground (arith, h, here, found, later) in
          let rest = candidate-IsIn account ds xs b found in
          (inr (subst (λ z. IsIn z xs) (sym e) rest.0), rw e rest.1)
    ]
  ]
]

pub IsIn-exists :
    (l : InvestmentLot) (lots : List InvestmentLot)
    → IsIn l lots
    → exists (λ (b : InvestmentLot). b.id == l.id) lots ≡ true
IsIn-exists l [] i = elim i [ ]
IsIn-exists l (x ∷ xs) (inl e) = ground (arith, e)
IsIn-exists l (x ∷ xs) (inr i) = ground (arith, IsIn-exists l xs i)

-- No lot is sold beyond its quantity.
abbrev pub IsWithin : List InvestmentDisposal → List InvestmentLot → Type 0
IsWithin ds lots = All (λ (l : InvestmentLot). sold l.id ds ≤ l.qty) lots

-- A disposal of another lot.
abbrev IsSame : ℕ → List InvestmentDisposal → InvestmentDisposal → List InvestmentLot → Type 0
IsSame account ds d lots =
    (open_total account (ds ++ d ∷ []) lots ≡ open_total account ds lots)
    × (open_count account (ds ++ d ∷ []) lots ≡ open_count account ds lots)
    × (IsWithin ds lots → IsWithin (ds ++ d ∷ []) lots)

other_lots :
    (account : ℕ) (ds : List InvestmentDisposal) (d : InvestmentDisposal)
    (lots : List InvestmentLot)
    → exists (λ (b : InvestmentLot). b.id == d.lot_id) lots ≡ false
    → IsSame account ds d lots
other_lots account ds d [] h = (refl, refl, λ w. tt)
other_lots account ds d (x ∷ xs) h =
    let (total, number, within) = other_lots account ds d xs (ground (arith, h)) in
    let e : sold x.id (ds ++ d ∷ []) ≡ sold x.id ds = ground (arith, h, sold-append x.id ds d) in
    (ground (arith, total, e), ground (arith, number, e), λ w. (rw e w.0, within w.1))

other_id :
    (l x : InvestmentLot) (xs : List InvestmentLot)
    → exists (λ (b : InvestmentLot). b.id == x.id) xs ≡ false
    → exists (λ (b : InvestmentLot). b.id == l.id) xs ≡ true
    → (x.id == l.id) ≡ false
other_id l x xs away near = elim (Bool-cases (x.id == l.id)) [
  | inr other ↦ other
  | inl same ↦
      let e : x.id ≡ l.id = ground arith in
      let gone = subst (λ z. exists (λ (b : InvestmentLot). b.id == z) xs ≡ false) e away in
      absurd (ground (arith, gone, near))
]

-- A disposal of a part of an open lot takes that part away; if it is the rest, the lot is closed.
abbrev pub IsTaken :
    ℕ → List InvestmentDisposal → InvestmentDisposal → ℕ → List InvestmentLot → Type 0
IsTaken account ds d rest lots =
    (open_total account (ds ++ d ∷ []) lots + d.qty ≡ open_total account ds lots)
    × (open_count account (ds ++ d ∷ []) lots ≤ open_count account ds lots)
    × (d.qty ≡ rest → open_count account (ds ++ d ∷ []) lots < open_count account ds lots)
    × (IsWithin ds lots → IsWithin (ds ++ d ∷ []) lots)

pub open_lot-IsTaken :
    (account : ℕ) (ds : List InvestmentDisposal) (d : InvestmentDisposal) (l : InvestmentLot)
    (lots : List InvestmentLot)
    → IsKeyed lots
    → IsIn l lots
    → is_open account ds l ≡ true
    → d.lot_id ≡ l.id
    → d.qty ≤ l.qty - sold l.id ds
    → IsTaken account ds d (l.qty - sold l.id ds) lots
open_lot-IsTaken account ds d l [] k i o e q = elim i [ ]
open_lot-IsTaken account ds d l (x ∷ xs) k (inl same) o e q =
    let away : exists (λ (b : InvestmentLot). b.id == d.lot_id) xs ≡ false = rw e (rw same k.0) in
    let (total, number, within) = other_lots account ds d xs away in
    let more : sold l.id (ds ++ d ∷ []) ≡ sold l.id ds + d.qty =
      ground (arith, e, sold-append l.id ds d) in
    rw (sym same) (
      ground (arith, total, more, o, q),
      ground (arith, number, more, o, q),
      λ full. ground (arith, number, more, o, q, full),
      λ w. (ground (arith, more, o, q), within w.1),
    )
open_lot-IsTaken account ds d l (x ∷ xs) k (inr i) o e q =
    let (total, number, fewer, within) = open_lot-IsTaken account ds d l xs k.1 i o e q in
    let other : (x.id == l.id) ≡ false = other_id l x xs k.0 (IsIn-exists l xs i) in
    let same : sold x.id (ds ++ d ∷ []) ≡ sold x.id ds =
      ground (arith, e, other, sold-append x.id ds d) in
    (
      ground (arith, total, same),
      ground (arith, number, same),
      λ full. ground (arith, fewer full, same),
      λ w. (rw same w.0, within w.1),
    )
