-- ===== src/Claims/Grouped.antt =====
-- The lines of a claim grouped by account (`grouped`).
use openaccounting.Prelude.{
  ℕ, ◌≤◌, Bool, true, ◌≡◌, refl, sym, ap, ◌∙◌, List, [], ◌∷◌, map, leb, ◌==◌, length, All, arith,
  Bool-cases, inl, inr,
}
use openaccounting.Prelude.Int.{sub_ℕ}
use openaccounting.Prelude.Tables.{select}
use openaccounting.Prelude.Sums.{sum, sum_ℤ, insert_by, order_by, sum_ℤ-sub_ℕ}
use openaccounting.Claims.Data.{Line}
use openaccounting.Claims.Routing.{contains, dedup, sort_unstable}
use openaccounting.Claims.Levels.{contains-distinct}
use openaccounting.Claims.Approve.{Group, booked_on, group_of, grouped, advance_total}

abbrev accounts_of : List Line → List ℕ
accounts_of lines = map (λ (l : Line). l.gl_account_id) lines

keys-single :
    {A : Type 0} (f : ℕ → A) (ks : List ℕ) (g : A)
    → map f ks ≡ g ∷ []
    → (k : ℕ) × (ks ≡ k ∷ []) × (f k ≡ g)
keys-single f [] g h = cc
keys-single f (k ∷ []) g h = (k, refl, cc)
keys-single f (k ∷ j ∷ ks) g h = cc

on_one_account :
    (k : ℕ) (lines : List Line)
    → ((a : ℕ) → contains (k ∷ []) a ≡ contains (accounts_of lines) a)
    → All (λ l. booked_on k l ≡ true) lines
on_one_account k lines h = each lines (λ a e. ground (arith, h a))
  where
    each :
        (ls : List Line)
        → ((a : ℕ) → contains (accounts_of ls) a ≡ true → (k == a) ≡ true)
        → All (λ l. booked_on k l ≡ true) ls
    each [] f = tt
    each (l ∷ ls) f = (
      (let same = f l.gl_account_id (ground arith) in ground (arith, same)),
      each ls (λ a e. f a (ground arith)),
    )

select-All {ℓ} :
    {A : Type ℓ} (p : A → Bool) (xs : List A) → All (λ x. p x ≡ true) xs → select p xs ≡ xs
select-All p [] h = refl
select-All p (x ∷ xs) h = rw (h.0, select-All p xs h.1) refl

-- The one group of a claim holds all its lines.
pub grouped-single :
    (lines : List Line) (g : Group)
    → grouped lines ≡ g ∷ []
    → (g.net ≡ sub_ℕ (sum (λ (l : Line). l.amount) lines) (advance_total lines))
      × (g.tax ≡ sum (λ (l : Line). l.tax_amount) lines)
unfolding grouped group_of advance_total
grouped-single lines g h =
    let ks = dedup (sort_unstable (accounts_of lines)) in
    let (k, e, one) = keys-single (group_of lines) ks g h in
    let all =
      on_one_account k lines
        (λ a. ap (λ z. contains z a) (sym e) ∙ contains-distinct (accounts_of lines) a) in
    let whole = select-All (booked_on k) lines all in
    (
      sym (ap (λ (z : Group). z.net) one)
          ∙ (ap (λ z. sum_ℤ (λ (l : Line). sub_ℕ l.amount l.advance_amount) z) whole
              ∙ sum_ℤ-sub_ℕ (λ l. l.amount) (λ l. l.advance_amount) lines),
      sym (ap (λ (z : Group). z.tax) one) ∙ ap (λ z. sum (λ (l : Line). l.tax_amount) z) whole,
    )

length-insert_by :
    {A : Type 0} (f : ℕ → A) (x : ℕ) (xs : List ℕ) → 1 ≤ length (map f (dedup (insert_by leb x xs)))
unfolding dedup
length-insert_by f x [] = omega arith
length-insert_by f x (y ∷ ys) = elim (Bool-cases (leb x y)) [
  | inl before ↦ rw before (omega arith)
  | inr after ↦ rw after (omega arith)
]

-- A claim with lines has a group.
pub length-grouped : (l : Line) (ls : List Line) → 1 ≤ length (grouped (l ∷ ls))
unfolding grouped sort_unstable
length-grouped l ls =
    length-insert_by (group_of (l ∷ ls)) l.gl_account_id (order_by leb (accounts_of ls))
