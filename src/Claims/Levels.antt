-- ===== src/Claims/Levels.antt =====
-- Sorting and `dedup` of levels and identifiers (`resolve_required_levels`, SELECT DISTINCT …
-- ORDER BY).
use openaccounting.Prelude.{
  ℕ, ◌<◌, ◌≡◌, refl, ◌∙◌, List, [], ◌∷◌, leb, ◌==◌, All, All-map, arith, Bool-cases, inl, inr,
}
use openaccounting.Prelude.Sums.{insert_by, order_by}
use openaccounting.Prelude.Sorted.{IsSorted, order_by-IsSorted}
use openaccounting.Claims.Routing.{
  contains, dedup_after, dedup, sort_unstable, or_one, resolve_required_levels,
}

contains-insert_by :
    (x : ℕ) (xs : List ℕ) (a : ℕ) → contains (insert_by leb x xs) a ≡ contains (x ∷ xs) a
contains-insert_by x [] a = refl
contains-insert_by x (y ∷ ys) a = ground (arith, contains-insert_by x ys a)

contains-sort_unstable : (xs : List ℕ) (a : ℕ) → contains (sort_unstable xs) a ≡ contains xs a
unfolding sort_unstable
contains-sort_unstable [] a = refl
contains-sort_unstable (x ∷ xs) a =
    contains-insert_by x (order_by leb xs) a ∙ rw (contains-sort_unstable xs a) refl

contains-dedup_after :
    (x : ℕ) (xs : List ℕ) (a : ℕ) → contains (x ∷ dedup_after x xs) a ≡ contains (x ∷ xs) a
unfolding dedup_after
contains-dedup_after x [] a = refl
contains-dedup_after x (y ∷ ys) a =
    ground (arith, contains-dedup_after x ys a, contains-dedup_after y ys a)

contains-dedup : (xs : List ℕ) (a : ℕ) → contains (dedup xs) a ≡ contains xs a
unfolding dedup
contains-dedup [] a = refl
contains-dedup (x ∷ xs) a = contains-dedup_after x xs a

-- The distinct values in order are the values.
pub contains-distinct :
    (xs : List ℕ) (a : ℕ) → contains (dedup (sort_unstable xs)) a ≡ contains xs a
contains-distinct xs a = contains-dedup (sort_unstable xs) a ∙ contains-sort_unstable xs a

-- Each number is below those after it.
abbrev pub IsAscending : List ℕ → Type 0
IsAscending [] = Unit
IsAscending (x ∷ xs) = All (λ y. x < y) xs × IsAscending xs

sort_unstable-IsSorted : (xs : List ℕ) → IsSorted (λ x. x) (sort_unstable xs)
unfolding sort_unstable
sort_unstable-IsSorted xs = order_by-IsSorted (λ x. x) xs

dedup_after-IsAscending :
    (x : ℕ) (xs : List ℕ) → IsSorted (λ x. x) (x ∷ xs) → IsAscending (x ∷ dedup_after x xs)
unfolding dedup_after
dedup_after-IsAscending x [] s = (tt, tt)
dedup_after-IsAscending x (y ∷ ys) s = elim (Bool-cases (y == x)) [
  | inl same ↦ rw same (dedup_after-IsAscending x ys (s.0.1, s.1.1))
  | inr new ↦
      let below : x < y = ground (arith, s.0.0) in
      let rest = dedup_after-IsAscending y ys s.1 in
      rw new (
        (below, All-map (λ z. y < z) (λ z. x < z) (dedup_after y ys) (λ z h. omega arith) rest.0),
        rest,
      )
]

dedup-IsAscending : (xs : List ℕ) → IsSorted (λ x. x) xs → IsAscending (dedup xs)
unfolding dedup
dedup-IsAscending [] s = tt
dedup-IsAscending (x ∷ xs) s = dedup_after-IsAscending x xs s

-- The distinct values in order ascend.
pub distinct-IsAscending : (xs : List ℕ) → IsAscending (dedup (sort_unstable xs))
distinct-IsAscending xs = dedup-IsAscending (sort_unstable xs) (sort_unstable-IsSorted xs)

-- The levels that matching policies require ascend, each once, and are the levels of the policies,
-- or the level 1 alone if no policy matches.
pub resolve_required_levels_lem :
    (matching : List ℕ)
    → IsAscending (resolve_required_levels matching)
      × ((level : ℕ)
          → contains (resolve_required_levels matching) level ≡ contains (or_one matching) level)
unfolding resolve_required_levels
resolve_required_levels_lem matching =
    (distinct-IsAscending (or_one matching), contains-distinct (or_one matching))
