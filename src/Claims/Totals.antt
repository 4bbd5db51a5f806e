-- ===== src/Claims/Totals.antt =====
-- The groups of a claim's lines add up to its lines (`grouped`).
use openaccounting.Prelude.{
  ℕ, ◌<◌, Bool, true, false, ◌≡◌, refl, sym, ap, ◌∙◌, List, [], ◌∷◌, map, ◌==◌, All, arith,
  if◌then◌else◌, ◌&&◌, ◌||◌,
}
use openaccounting.Prelude.Int.{ℤ, pos, ◌+ℤ◌, int_laws}
use openaccounting.Prelude.Tables.{select}
use openaccounting.Prelude.Sums.{sum_ℤ, sum_ℤ_same, sum_ℤ_plus, sum_ℤ_zero, sum_ℤ-select}
use openaccounting.Claims.Data.{Line}
use openaccounting.Claims.Routing.{contains, dedup, sort_unstable}
use openaccounting.Claims.Levels.{IsAscending, distinct-IsAscending, contains-distinct}
use openaccounting.Claims.Approve.{booked_on}

absent : (k : ℕ) (ks : List ℕ) → All (λ j. k < j) ks → contains ks k ≡ false
absent k [] h = refl
absent k (j ∷ ks) h = ground (arith, absent k ks h.1)

-- At most one of two tests holds.
one_of :
    (v : ℤ) (p q r : Bool)
    → r ≡ (p || q)
    → (p && q) ≡ false
    → (if p then v else pos 0) +ℤ (if q then v else pos 0) ≡ (if r then v else pos 0)
one_of v true true r e h = cc
one_of v true false r e h = rw e (omega int_laws)
one_of v false true r e h = rw e (omega int_laws)
one_of v false false r e h = rw e (omega int_laws)

module _ (f : Line → ℤ) where
  abbrev on_account : ℕ → Line → ℤ
  on_account k l = if booked_on k l then f l else pos 0

  one_more :
      (k : ℕ) (ks : List ℕ) (l : Line)
      → All (λ j. k < j) ks
      → on_account k l +ℤ (if contains ks l.gl_account_id then f l else pos 0)
        ≡ (if contains (k ∷ ks) l.gl_account_id then f l else pos 0)
  one_more k ks l above =
      one_of (f l) (booked_on k l) (contains ks l.gl_account_id) (contains (k ∷ ks) l.gl_account_id)
        (ground arith) (apart (l.gl_account_id == k) refl)
    where
      apart : (b : Bool) → (l.gl_account_id == k) ≡ b → (b && contains ks l.gl_account_id) ≡ false
      apart true e =
          let same : l.gl_account_id ≡ k = ground arith in ap (contains ks) same ∙ absent k ks above
      apart false e = refl

  -- Accounts that ascend share no line.
  sum_ℤ-accounts :
      (ks : List ℕ) (lines : List Line)
      → IsAscending ks
      → sum_ℤ (λ k. sum_ℤ f (select (booked_on k) lines)) ks
        ≡ sum_ℤ (λ (l : Line). if contains ks l.gl_account_id then f l else pos 0) lines
  sum_ℤ-accounts [] lines h = sym (sum_ℤ_zero lines)
  sum_ℤ-accounts (k ∷ ks) lines h =
      ap (λ v. v +ℤ sum_ℤ (λ k. sum_ℤ f (select (booked_on k) lines)) ks)
        (sum_ℤ-select f (booked_on k) lines)
      ∙ (ap (λ v. sum_ℤ (on_account k) lines +ℤ v) (sum_ℤ-accounts ks lines h.1)
          ∙ (sym (
                sum_ℤ_plus (on_account k)
                  (λ (l : Line). if contains ks l.gl_account_id then f l else pos 0) lines)
              ∙ sum_ℤ_same _ _ lines (λ l. one_more k ks l h.0)))

  all_lines :
      (ks : List ℕ) (lines : List Line)
      → ((a : ℕ)
          → contains (map (λ (l : Line). l.gl_account_id) lines) a ≡ true
          → contains ks a ≡ true)
      → sum_ℤ (λ (l : Line). if contains ks l.gl_account_id then f l else pos 0) lines
        ≡ sum_ℤ f lines
  all_lines ks [] h = refl
  all_lines ks (l ∷ lines) h =
      let here = h l.gl_account_id (ground arith) in
      rw (here, all_lines ks lines (λ a e. h a (ground arith))) refl

  -- The sums over the groups add up to the sum over the lines.
  pub sum_ℤ-distinct :
      (lines : List Line)
      → sum_ℤ
          (λ k. sum_ℤ f (select (booked_on k) lines))
          (dedup (sort_unstable (map (λ (l : Line). l.gl_account_id) lines)))
        ≡ sum_ℤ f lines
  sum_ℤ-distinct lines =
      let accounts = map (λ (l : Line). l.gl_account_id) lines in
      sum_ℤ-accounts (dedup (sort_unstable accounts)) lines (distinct-IsAscending accounts)
      ∙ all_lines (dedup (sort_unstable accounts)) lines (λ a e. contains-distinct accounts a ∙ e)
