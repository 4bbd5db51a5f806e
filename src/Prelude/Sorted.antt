-- ===== src/Prelude/Sorted.antt =====
-- ORDER BY a number, and what it keeps.
use Prim.Native.Nat.{ℕ, ◌≤◌}
use mathlib.Core.Logic.{inl, inr}
use mathlib.Core.Bool.{Bool}
use mathlib.Core.List.{List, [], ◌∷◌}
use native.Mathlib.Omega.{arith}
use openaccounting.Prelude.Tests.{leb, Bool-cases}
use openaccounting.Prelude.Lists.{All, All-map}
use openaccounting.Prelude.Sums.{insert_by, order_by}

module _ {ℓ} {A : Type ℓ} (key : A → ℕ) where
  abbrev pub by_key : A → A → Bool
  by_key x y = leb (key x) (key y)

  -- The key of each row is at most those of the rows after it.
  abbrev pub IsSorted : List A → Type 0
  IsSorted [] = Unit
  IsSorted (x ∷ xs) = All (λ y. key x ≤ key y) xs × IsSorted xs

  All-insert_by :
      (P : A → Type 0) (x : A) (xs : List A) → P x → All P xs → All P (insert_by by_key x xs)
  All-insert_by P x [] h k = (h, tt)
  All-insert_by P x (y ∷ ys) h k = elim (Bool-cases (by_key x y)) [
    | inl before ↦ rw before (h, k)
    | inr after ↦ rw after (k.0, All-insert_by P x ys h k.1)
  ]

  -- What holds of the rows holds of the rows in order.
  pub All-order_by : (P : A → Type 0) (xs : List A) → All P xs → All P (order_by by_key xs)
  All-order_by P [] h = tt
  All-order_by P (x ∷ xs) h = All-insert_by P x (order_by by_key xs) h.0 (All-order_by P xs h.1)

  insert_by-IsSorted : (x : A) (xs : List A) → IsSorted xs → IsSorted (insert_by by_key x xs)
  insert_by-IsSorted x [] s = (tt, tt)
  insert_by-IsSorted x (y ∷ ys) s = elim (Bool-cases (by_key x y)) [
    | inl before ↦
        let le : key x ≤ key y = ground arith in
        rw before
          ((le, All-map (λ z. key y ≤ key z) (λ z. key x ≤ key z) ys (λ z h. omega arith) s.0), s)
    | inr after ↦
        let le : key y ≤ key x = ground arith in
        rw after (All-insert_by (λ z. key y ≤ key z) x ys le s.0, insert_by-IsSorted x ys s.1)
  ]

  pub order_by-IsSorted : (xs : List A) → IsSorted (order_by by_key xs)
  order_by-IsSorted [] = tt
  order_by-IsSorted (x ∷ xs) = insert_by-IsSorted x (order_by by_key xs) (order_by-IsSorted xs)
