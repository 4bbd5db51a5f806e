-- ===== src/Stock/Queue.antt =====
-- First in, first out, as a queue of single units, and that `valuate` with FIFO implements it.
use native.Mathlib.Nat.{suc-mul}
use mathlib.Core.List.{append_assoc, append-nil}
use openaccounting.Prelude.{
  ℕ, zero, suc, ◌+◌, ◌-◌, ◌*◌, ◌<◌, false, List, [], ◌∷◌, ◌++◌, ◌≡◌, refl, arith, length,
  length-append, ltb, ◌==◌, min, ap, sym, ◌∙◌,
}
use openaccounting.Prelude.Int.{ℤ, pos, negsuc, ◌+ℤ◌, ◌*ℤ◌, pos_part, neg_part, int_laws}
use openaccounting.Prelude.Results.{Result, ok, ◌>>=◌, ◌>>◌, fail_if}
use openaccounting.Stock.Valuation.{
  Movement, StockError, oversold, Layer, on_hand, consume, retain, layers_value,
}

abbrev pub drop : ℕ → List ℤ → List ℤ
drop zero units = units
drop (suc n) [] = []
drop (suc n) (u ∷ units) = drop n units

abbrev pub repeat : ℕ → ℤ → List ℤ
repeat zero c = []
repeat (suc n) c = c ∷ repeat n c

abbrev pub total : List ℤ → ℤ
total [] = pos 0
total (u ∷ units) = u +ℤ total units

-- The queue holds the cost of each unit on hand, oldest first.
unfoldable pub queue_step : ℤ → ℤ → List ℤ → Result StockError (List ℤ)
queue_step (pos q) cost units = ok (units ++ repeat q cost)
queue_step (negsuc k) cost units =
    fail_if (ltb (length units) (suc k)) (oversold (suc k) (length units))
    >> ok (drop (suc k) units)

unfoldable pub queue : List Movement → List ℤ → Result StockError (List ℤ)
queue [] units = ok units
queue (m ∷ movements) units = queue_step m.qty m.unit_cost units >>= λ next. queue movements next

-- What is bought in all.
abbrev pub bought : List Movement → ℕ
bought [] = 0
bought (m ∷ movements) = pos_part m.qty + bought movements

-- A quantity whose negation is an `i32` too.
abbrev pub IsQty : Movement → Type 0
IsQty m = neg_part m.qty < 2147483648

abbrev pub units_of : List Layer → List ℤ
units_of [] = []
units_of (l ∷ layers) = repeat l.qty l.unit_cost ++ units_of layers

pub length-repeat : (n : ℕ) (c : ℤ) → length (repeat n c) ≡ n
length-repeat zero c = refl
length-repeat (suc n) c = ap suc (length-repeat n c)

pub length-units_of : (layers : List Layer) → length (units_of layers) ≡ on_hand layers
unfolding on_hand
length-units_of [] = refl
length-units_of (l ∷ layers) = omega (
  arith,
  length-append (repeat l.qty l.unit_cost) (units_of layers),
  length-repeat l.qty l.unit_cost,
  length-units_of layers,
)

pub units_of-append :
    (layers : List Layer) (l : Layer)
    → units_of (layers ++ l ∷ []) ≡ units_of layers ++ repeat l.qty l.unit_cost
units_of-append [] l = append-nil (repeat l.qty l.unit_cost)
units_of-append (k ∷ layers) l =
    ap (λ t. repeat k.qty k.unit_cost ++ t) (units_of-append layers l)
    ∙ sym (append_assoc (repeat k.qty k.unit_cost) (units_of layers) (repeat l.qty l.unit_cost))

pub units_of-retain : (layers : List Layer) → units_of (retain layers) ≡ units_of layers
unfolding retain
units_of-retain [] = refl
units_of-retain (l ∷ layers) = ground (arith, units_of-retain layers)

drop-nil : (n : ℕ) → drop n [] ≡ []
drop-nil zero = refl
drop-nil (suc n) = refl

drop-repeat :
    (n q : ℕ) (c : ℤ) (units : List ℤ)
    → drop n (repeat q c ++ units) ≡ repeat (q - min q n) c ++ drop (n - min q n) units
drop-repeat zero q c units =
    let same : q - min q 0 ≡ q = ground arith in
    let none_left : 0 - min q 0 ≡ 0 = ground arith in rw (same, none_left) refl
drop-repeat (suc n) zero c units =
    let none_left : 0 - min 0 (suc n) ≡ 0 = ground arith in
    let same : suc n - min 0 (suc n) ≡ suc n = ground arith in rw (none_left, same) refl
drop-repeat (suc n) (suc q) c units =
    let left : suc q - min (suc q) (suc n) ≡ q - min q n = ground arith in
    let right : suc n - min (suc q) (suc n) ≡ n - min q n = ground arith in
    rw (left, right) (drop-repeat n q c units)

pub units_of-consume :
    (n : ℕ) (layers : List Layer) → units_of (consume n layers) ≡ drop n (units_of layers)
unfolding consume
units_of-consume n [] = sym (drop-nil n)
units_of-consume zero (l ∷ layers) = refl
units_of-consume (suc n) (l ∷ layers) =
    let more : (suc n == 0) ≡ false = ground arith in
    rw more (
      ap (λ t. repeat (l.qty - min l.qty (suc n)) l.unit_cost ++ t)
        (units_of-consume (suc n - min l.qty (suc n)) layers)
      ∙ sym (drop-repeat (suc n) l.qty l.unit_cost (units_of layers)))

pub times_parts :
    (n : ℕ) (c : ℤ)
    → pos_part (pos n *ℤ c) + n * neg_part c ≡ neg_part (pos n *ℤ c) + n * pos_part c
unfolding ◌*ℤ◌
times_parts n c = ground arith

total-append : (xs ys : List ℤ) → total (xs ++ ys) ≡ total xs +ℤ total ys
total-append [] ys = omega int_laws
total-append (x ∷ xs) ys = rw (total-append xs ys) (omega int_laws)

total-repeat : (n : ℕ) (c : ℤ) → total (repeat n c) ≡ pos n *ℤ c
total-repeat zero c = omega (int_laws, times_parts 0 c)
total-repeat (suc n) c = rw (total-repeat n c) (
    omega (
      int_laws,
      times_parts n c,
      times_parts (suc n) c,
      suc-mul n (pos_part c),
      suc-mul n (neg_part c),
    ))

pub total-units_of : (layers : List Layer) → total (units_of layers) ≡ layers_value layers
unfolding layers_value
total-units_of [] = refl
total-units_of (l ∷ layers) =
    total-append (repeat l.qty l.unit_cost) (units_of layers)
    ∙ ap (λ t. t +ℤ total (units_of layers)) (total-repeat l.qty l.unit_cost)
    ∙ ap (λ t. pos l.qty *ℤ l.unit_cost +ℤ t) (total-units_of layers)
