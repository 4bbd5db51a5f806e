-- ===== src/Prelude/Tables.antt =====
-- Database tables as lists of rows, and the shapes of statement that the program sends.
use Prim.Native.Nat.{ℕ, suc, ◌+◌, ◌≤◌}
use mathlib.Core.Path.{◌≡◌, refl}
use mathlib.Core.Bool.{Bool, true, false, not, ◌&&◌}
use mathlib.Core.List.{List, [], ◌∷◌, ◌++◌}
use mathlib.Core.Option.{Option, none, some}
use native.Mathlib.Omega.{arith}
use openaccounting.Prelude.Tests.{if◌then◌else◌}
use openaccounting.Prelude.Lists.{length, All}

module _ {ℓ} {A : Type ℓ} where
  -- SELECT … WHERE p (one row)
  abbrev pub find : (A → Bool) → List A → Option A
  find p [] = none
  find p (x ∷ xs) = if p x then some x else find p xs

  -- SELECT … WHERE p
  abbrev pub select : (A → Bool) → List A → List A
  select p [] = []
  select p (x ∷ xs) = if p x then x ∷ select p xs else select p xs

  -- SELECT COUNT(*) … WHERE p
  abbrev pub count : (A → Bool) → List A → ℕ
  count p [] = 0
  count p (x ∷ xs) = let rest = count p xs in if p x then suc rest else rest

  -- UPDATE … SET f WHERE p
  abbrev pub update : (A → Bool) → (A → A) → List A → List A
  update p f [] = []
  update p f (x ∷ xs) = (if p x then f x else x) ∷ update p f xs

  -- DELETE … WHERE p
  abbrev pub delete : (A → Bool) → List A → List A
  delete p [] = []
  delete p (x ∷ xs) = if p x then delete p xs else x ∷ delete p xs

  abbrev pub exists : (A → Bool) → List A → Bool
  exists p [] = false
  exists p (x ∷ xs) = if p x then true else exists p xs

  pub length-update : (p : A → Bool) (f : A → A) (xs : List A) → length (update p f xs) ≡ length xs
  length-update p f [] = refl
  length-update p f (x ∷ xs) = omega (arith, length-update p f xs)

  pub length-delete : (p : A → Bool) (xs : List A) → length (delete p xs) ≤ length xs
  length-delete p [] = omega arith
  length-delete p (x ∷ xs) = ground (arith, length-delete p xs)

  pub find-true : (p : A → Bool) (xs : List A) {a : A} → find p xs ≡ some a → p a ≡ true
  find-true p [] h = cc
  find-true p (x ∷ xs) {a} h = ground (arith, find-true p xs {a = a})

  -- A deletion takes away from a count the rows that it deletes.
  pub count-delete :
      (p q : A → Bool) (xs : List A)
      → count p (delete q xs) + count (λ x. p x && q x) xs ≡ count p xs
  count-delete p q [] = omega arith
  count-delete p q (x ∷ xs) = ground (arith, count-delete p q xs)

  -- A row that is not deleted is still there.
  pub exists-delete :
      (p q : A → Bool) (xs : List A)
      → exists (λ x. p x && not (q x)) xs ≡ true
      → exists p (delete q xs) ≡ true
  exists-delete p q [] h = cc
  exists-delete p q (x ∷ xs) h = ground (arith, exists-delete p q xs)

  pub find-append_new :
      (p : A → Bool) (xs : List A) (x : A)
      → find p xs ≡ none
      → p x ≡ true
      → find p (xs ++ x ∷ []) ≡ some x
  find-append_new p [] x h e = ground arith
  find-append_new p (y ∷ ys) x h e = ground (arith, find-append_new p ys x)

module _ {ℓ κ} {A : Type ℓ} (P : A → Type κ) where
  pub All-update :
      (p : A → Bool) (f : A → A) (xs : List A)
      → ((a : A) → P a → P (f a))
      → All P xs
      → All P (update p f xs)
  All-update p f [] keep h = tt
  All-update p f (x ∷ xs) keep h = (head (p x), All-update p f xs keep h.1)
    where
      head : (b : Bool) → P (if b then f x else x)
      head true = keep x h.0
      head false = h.0

  pub All-delete : (p : A → Bool) (xs : List A) → All P xs → All P (delete p xs)
  All-delete p [] h = tt
  All-delete p (x ∷ xs) h = split (p x) (All-delete p xs h.1)
    where
      split : (b : Bool) → All P (delete p xs) → All P (if b then delete p xs else x ∷ delete p xs)
      split true t = t
      split false t = (h.0, t)
