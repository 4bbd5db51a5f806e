-- ===== src/Prelude/Sums.antt =====
-- SUM and ORDER BY over the rows of a table.
use Prim.Native.Nat.{ℕ, ◌+◌}
use mathlib.Core.Path.{◌≡◌, refl}
use mathlib.Core.Bool.{Bool, true}
use mathlib.Core.List.{List, [], ◌∷◌, ◌++◌, map}
use native.Mathlib.Omega.{arith}
use openaccounting.Prelude.Tests.{if◌then◌else◌, Bool-cases}
use mathlib.Core.Logic.{inl, inr}
use openaccounting.Prelude.Lists.{All}
use openaccounting.Prelude.Int.{ℤ, pos, sub_ℕ, ◌+ℤ◌, int_laws, parts}
use openaccounting.Prelude.Tables.{select}

-- Differences add up by their parts.
pub sub_ℕ_plus : (a b c d : ℕ) → sub_ℕ a b +ℤ sub_ℕ c d ≡ sub_ℕ (a + c) (b + d)
unfolding ◌+ℤ◌
sub_ℕ_plus a b c d = ground arith

module _ {ℓ} {A : Type ℓ} where
  abbrev pub sum : (A → ℕ) → List A → ℕ
  sum f [] = 0
  sum f (x ∷ xs) = f x + sum f xs

  abbrev pub sum_ℤ : (A → ℤ) → List A → ℤ
  sum_ℤ f [] = pos 0
  sum_ℤ f (x ∷ xs) = f x +ℤ sum_ℤ f xs

  -- ORDER BY, with the order of the database as a test.
  abbrev pub insert_by : (A → A → Bool) → A → List A → List A
  insert_by before x [] = x ∷ []
  insert_by before x (y ∷ ys) = if before x y then x ∷ y ∷ ys else y ∷ insert_by before x ys

  abbrev pub order_by : (A → A → Bool) → List A → List A
  order_by before [] = []
  order_by before (x ∷ xs) = insert_by before x (order_by before xs)

  sum-insert_by :
      (f : A → ℕ) (before : A → A → Bool) (x : A) (xs : List A)
      → sum f (insert_by before x xs) ≡ f x + sum f xs
  sum-insert_by f before x [] = omega arith
  sum-insert_by f before x (y ∷ ys) = ground (arith, sum-insert_by f before x ys)

  -- A sum does not depend on the order of the rows.
  pub sum-order_by :
      (f : A → ℕ) (before : A → A → Bool) (xs : List A) → sum f (order_by before xs) ≡ sum f xs
  sum-order_by f before [] = refl
  sum-order_by f before (x ∷ xs) =
      omega (arith, sum-insert_by f before x (order_by before xs), sum-order_by f before xs)

  pub sum-append : (f : A → ℕ) (xs ys : List A) → sum f (xs ++ ys) ≡ sum f xs + sum f ys
  sum-append f [] ys = omega arith
  sum-append f (x ∷ xs) ys = omega (arith, sum-append f xs ys)

  pub sum-select :
      (f : A → ℕ) (q : A → Bool) (xs : List A)
      → sum f (select q xs) ≡ sum (λ x. if q x then f x else 0) xs
  sum-select f q [] = refl
  sum-select f q (x ∷ xs) = ground (arith, sum-select f q xs)

  pub sum_same : (f g : A → ℕ) (xs : List A) → ((x : A) → f x ≡ g x) → sum f xs ≡ sum g xs
  sum_same f g [] h = refl
  sum_same f g (x ∷ xs) h = omega (arith, h x, sum_same f g xs h)

  pub sum_ℤ_same : (f g : A → ℤ) (xs : List A) → ((x : A) → f x ≡ g x) → sum_ℤ f xs ≡ sum_ℤ g xs
  sum_ℤ_same f g [] h = refl
  sum_ℤ_same f g (x ∷ xs) h = rw (h x, sum_ℤ_same f g xs h) refl

  pub sum_ℤ_plus :
      (f g : A → ℤ) (xs : List A) → sum_ℤ (λ x. f x +ℤ g x) xs ≡ sum_ℤ f xs +ℤ sum_ℤ g xs
  sum_ℤ_plus f g [] = omega int_laws
  sum_ℤ_plus f g (x ∷ xs) = omega (int_laws, parts (sum_ℤ_plus f g xs))

  pub sum_ℤ_zero : (xs : List A) → sum_ℤ (λ _. pos 0) xs ≡ pos 0
  sum_ℤ_zero [] = refl
  sum_ℤ_zero (x ∷ xs) = omega (int_laws, parts (sum_ℤ_zero xs))

  pub sum_ℤ-select :
      (f : A → ℤ) (q : A → Bool) (xs : List A)
      → sum_ℤ f (select q xs) ≡ sum_ℤ (λ x. if q x then f x else pos 0) xs
  sum_ℤ-select f q [] = refl
  sum_ℤ-select f q (x ∷ xs) = elim (Bool-cases (q x)) [
    | inl taken ↦ rw taken (omega (int_laws, parts (sum_ℤ-select f q xs)))
    | inr left ↦ rw left (omega (int_laws, parts (sum_ℤ-select f q xs)))
  ]

  sum_ℤ-insert_by :
      (f : A → ℤ) (before : A → A → Bool) (x : A) (xs : List A)
      → sum_ℤ f (insert_by before x xs) ≡ f x +ℤ sum_ℤ f xs
  sum_ℤ-insert_by f before x [] = refl
  sum_ℤ-insert_by f before x (y ∷ ys) = elim (Bool-cases (before x y)) [
    | inl here ↦ rw here refl
    | inr later ↦ rw later (omega (int_laws, parts (sum_ℤ-insert_by f before x ys)))
  ]

  pub sum_ℤ-order_by :
      (f : A → ℤ) (before : A → A → Bool) (xs : List A) → sum_ℤ f (order_by before xs) ≡ sum_ℤ f xs
  sum_ℤ-order_by f before [] = refl
  sum_ℤ-order_by f before (x ∷ xs) = omega (
    int_laws,
    parts (sum_ℤ-insert_by f before x (order_by before xs)),
    parts (sum_ℤ-order_by f before xs),
  )

  -- The sum of the differences is the difference of the sums.
  pub sum_ℤ-sub_ℕ :
      (f g : A → ℕ) (xs : List A) → sum_ℤ (λ x. sub_ℕ (f x) (g x)) xs ≡ sub_ℕ (sum f xs) (sum g xs)
  sum_ℤ-sub_ℕ f g [] = refl
  sum_ℤ-sub_ℕ f g (x ∷ xs) = rw (sum_ℤ-sub_ℕ f g xs) (sub_ℕ_plus (f x) (g x) (sum f xs) (sum g xs))

  sum_zero : (xs : List A) → sum (λ _. 0) xs ≡ 0
  sum_zero [] = refl
  sum_zero (x ∷ xs) = omega (arith, sum_zero xs)

  pub sum_plus : (f g : A → ℕ) (xs : List A) → sum (λ x. f x + g x) xs ≡ sum f xs + sum g xs
  sum_plus f g [] = refl
  sum_plus f g (x ∷ xs) = omega (arith, sum_plus f g xs)

module _ {ℓ κ} {A : Type ℓ} {B : Type κ} where
  pub sum-map : (f : B → ℕ) (g : A → B) (xs : List A) → sum f (map g xs) ≡ sum (λ x. f (g x)) xs
  sum-map f g [] = refl
  sum-map f g (x ∷ xs) = omega (arith, sum-map f g xs)

  pub sum_ℤ-map :
      (f : B → ℤ) (g : A → B) (xs : List A) → sum_ℤ f (map g xs) ≡ sum_ℤ (λ x. f (g x)) xs
  sum_ℤ-map f g [] = refl
  sum_ℤ-map f g (x ∷ xs) = rw (sum_ℤ-map f g xs) refl

  -- A double sum can be taken in either order.
  pub sum-sum :
      (f : A → B → ℕ) (xs : List A) (ys : List B)
      → sum (λ x. sum (f x) ys) xs ≡ sum (λ y. sum (λ x. f x y) xs) ys
  sum-sum f xs [] = sum_zero xs
  sum-sum f xs (y ∷ ys) =
      omega (arith, sum_plus (λ x. f x y) (λ x. sum (f x) ys) xs, sum-sum f xs ys)

module _ {ℓ κ} {A : Type ℓ} (P : A → Type κ) where
  All-insert_by :
      (before : A → A → Bool) (x : A) (xs : List A) → P x → All P xs → All P (insert_by before x xs)
  All-insert_by before x [] px h = (px, tt)
  All-insert_by before x (y ∷ ys) px h = elim (Bool-cases (before x y)) [
    | inl here ↦ rw here (px, h)
    | inr later ↦ rw later (h.0, All-insert_by before x ys px h.1)
  ]

  pub All-order_by : (before : A → A → Bool) (xs : List A) → All P xs → All P (order_by before xs)
  All-order_by before [] h = tt
  All-order_by before (x ∷ xs) h =
      All-insert_by before x (order_by before xs) h.0 (All-order_by before xs h.1)

  pub All-select : (q : A → Bool) (xs : List A) → All P xs → All P (select q xs)
  All-select q [] h = tt
  All-select q (x ∷ xs) h = elim (Bool-cases (q x)) [
    | inl taken ↦ rw taken (h.0, All-select q xs h.1)
    | inr left ↦ rw left (All-select q xs h.1)
  ]

pub All-select-true {ℓ} :
    {A : Type ℓ} (q : A → Bool) (xs : List A) → All (λ x. q x ≡ true) (select q xs)
All-select-true q [] = tt
All-select-true q (x ∷ xs) = elim (Bool-cases (q x)) [
  | inl taken ↦ rw taken (taken, All-select-true q xs)
  | inr left ↦ rw left (All-select-true q xs)
]
