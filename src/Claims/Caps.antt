-- ===== src/Claims/Caps.antt =====
-- The days that a category cap reports (`eval_category_cap`).
use openaccounting.Prelude.{
  ℕ, String, Bool, false, not, ◌≡◌, refl, ◌∙◌, ◌&&◌, some, List, [], ◌∷◌, ◌==◌, str_eq,
  if◌then◌else◌, arith,
}
use openaccounting.Prelude.Int.{ℤ, pos, ltb_ℤ}
use openaccounting.Prelude.Sums.{sum_ℤ, sum_ℤ_same, sum_ℤ-select}
use openaccounting.Prelude.Tables.{select, exists, count}
use openaccounting.Claims.Data.{CategoryCapConfig, Env}
use openaccounting.Claims.Policies.{
  Policy, PolicyLine, Violation, category_cap_over, receipt_missing, per_diem_over, cap_loop,
  eval_category_cap,
}

-- The violation is of a cap on this day.
abbrev pub reports : ℕ → Violation → Bool
reports day (category_cap_over _ date _ _) = date == day
reports day (receipt_missing _ _) = false
reports day (per_diem_over _ _ _ _) = false

-- What a line adds to the spending of a day in a category.
abbrev pub spent : String → ℕ → PolicyLine → ℤ
spent category day l =
    if l.txn_date == day then (if str_eq l.category category then l.amount else pos 0) else pos 0

sum_ℤ-spent :
    (category : String) (day : ℕ) (lines : List PolicyLine)
    → sum_ℤ
        (λ (l : PolicyLine). l.amount)
        (select (λ (l : PolicyLine). str_eq l.category category && l.txn_date == day) lines)
      ≡ sum_ℤ (spent category day) lines
sum_ℤ-spent category day lines =
    sum_ℤ-select (λ (l : PolicyLine). l.amount)
      (λ (l : PolicyLine). str_eq l.category category && l.txn_date == day) lines
    ∙ sum_ℤ_same _ (spent category day) lines (λ l. ground arith)

abbrev pub is_spent : String → ℕ → PolicyLine → Bool
is_spent category day l = str_eq l.category category && l.txn_date == day

module _ (env : Env) (cfg : CategoryCapConfig) (lines : List PolicyLine) (day : ℕ) where
  abbrev over : Bool
  over = ltb_ℤ cfg.max_per_day (
      sum_ℤ (λ (l : PolicyLine). l.amount)
        (select (λ (l : PolicyLine). str_eq l.category cfg.category && l.txn_date == day) lines))

  abbrev due : List ℕ → List PolicyLine → Bool
  due seen rest =
      (not (exists (λ d. d == day) seen) && exists (is_spent cfg.category day) rest) && over

  abbrev one_if : Bool → ℕ
  one_if b = if b then 1 else 0

  count-cap_loop :
      (seen : List ℕ) (rest : List PolicyLine)
      → count (reports day) (cap_loop env cfg lines seen rest) ≡ one_if (due seen rest)
  unfolding cap_loop
  count-cap_loop seen [] = ground arith
  count-cap_loop seen (l ∷ rest) =
      ground (arith, count-cap_loop seen rest, count-cap_loop (l.txn_date ∷ seen) rest)

-- A category cap reports each day exactly once if the policy's category has a line on it and the
-- amounts of the lines of that category and that day, summed over all the lines, are over the cap,
-- and otherwise not at all.
pub count-eval_category_cap :
    (env : Env) (policy : Policy) (lines : List PolicyLine) (cfg : CategoryCapConfig) (day : ℕ)
    → policy.config.as_category_cap ≡ some cfg
    → count (reports day) (eval_category_cap env policy lines) ≡ (
        if exists (is_spent cfg.category day) lines
          && ltb_ℤ cfg.max_per_day (sum_ℤ (spent cfg.category day) lines)
        then 1
        else 0)
unfolding eval_category_cap
count-eval_category_cap env policy lines cfg day h =
    rw (h, count-cap_loop env cfg lines day [] lines, sum_ℤ-spent cfg.category day lines) refl
