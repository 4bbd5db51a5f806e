-- ===== src/Accounts/Classified.antt =====
-- The forms and the schema accept the same classifications, so a statement is refused for its name
-- alone; and an account with postings keeps its classification.
use openaccounting.Prelude.{
  String, true, Option, none, some, List, [], ◌∷◌, ◌==◌, ◌≡◌, ◌↔◌, refl, ap, sym, subst, ◌∙◌, arith,
  str_eq, eq_iff, All, Bool-cases, inl, inr, get_elem?,
}
use openaccounting.Prelude.Results.{ok}
use openaccounting.Accounts.Chart.{
  AccountType, asset, liability, equity, income, expense, AccountSubtype, current_asset,
  fixed_asset, intangible_asset, other_asset, employee_advance, current_liability,
  long_term_liability, employee_payable, owners_equity, retained_earnings, drawing,
  operating_income, non_operating_income, cost_of_goods_sold, operating_expense,
  non_operating_expense, tax_expense, type_as_str, subtype_as_str, type_from_db, subtype_from_db,
  valid_subtypes, discriminant, contains,
}
use openaccounting.Accounts.Handlers.{is_any, check_subtype, classified, classify}

abbrev all_subtypes : List AccountSubtype
all_subtypes =
    current_asset ∷ fixed_asset ∷ intangible_asset ∷ other_asset ∷ employee_advance
    ∷ current_liability ∷ long_term_liability ∷ employee_payable ∷ owners_equity ∷ retained_earnings
    ∷ drawing ∷ operating_income ∷ non_operating_income ∷ cost_of_goods_sold ∷ operating_expense
    ∷ non_operating_expense ∷ tax_expense ∷ []

at_discriminant : (s : AccountSubtype) → get_elem? all_subtypes (discriminant s) ≡ some s
at_discriminant current_asset = refl
at_discriminant fixed_asset = refl
at_discriminant intangible_asset = refl
at_discriminant other_asset = refl
at_discriminant employee_advance = refl
at_discriminant current_liability = refl
at_discriminant long_term_liability = refl
at_discriminant employee_payable = refl
at_discriminant owners_equity = refl
at_discriminant retained_earnings = refl
at_discriminant drawing = refl
at_discriminant operating_income = refl
at_discriminant non_operating_income = refl
at_discriminant cost_of_goods_sold = refl
at_discriminant operating_expense = refl
at_discriminant non_operating_expense = refl
at_discriminant tax_expense = refl

discriminant_injective : (s t : AccountSubtype) → (discriminant s == discriminant t) ≡ true → s ≡ t
discriminant_injective s t h =
    let e : discriminant s ≡ discriminant t = ground arith in
    let found : some s ≡ some t =
      sym (at_discriminant s) ∙ ap (get_elem? all_subtypes) e ∙ at_discriminant t in
    cc

-- What holds of all that a list contains, or of all its keys.
contains-All :
    (P : AccountSubtype → Type 0) (xs : List AccountSubtype) (s : AccountSubtype)
    → All P xs
    → contains xs s ≡ true
    → P s
contains-All P [] s h c = absurd (ground arith)
contains-All P (x ∷ xs) s h c = elim (Bool-cases (discriminant x == discriminant s)) [
  | inl here ↦ subst P (discriminant_injective x s here) h.0
  | inr later ↦ contains-All P xs s h.1 (ground (arith, later, c))
]

is_any-All :
    (P : String → Type 0) (keys : List String) (s : String)
    → All P keys
    → is_any keys s ≡ true
    → P s
is_any-All P [] s h c = absurd (ground arith)
is_any-All P (k ∷ keys) s h c = elim (Bool-cases (str_eq s k)) [
  | inl here ↦ subst P (sym ((eq_iff s k).0 here)) h.0
  | inr later ↦ is_any-All P keys s h.1 (ground (arith, later, c))
]

-- The schema takes every pair of the enum's table.
contains-check_subtype :
    (t : AccountType) (s : AccountSubtype)
    → contains (valid_subtypes t) s ≡ true
    → check_subtype (type_as_str t) (subtype_as_str s) ≡ true
contains-check_subtype asset s =
    contains-All (λ x. check_subtype "ASSET" (subtype_as_str x) ≡ true) (valid_subtypes asset) s
      (refl, (refl, (refl, (refl, (refl, tt)))))
contains-check_subtype liability s =
    contains-All (λ x. check_subtype "LIABILITY" (subtype_as_str x) ≡ true)
      (valid_subtypes liability) s (refl, (refl, (refl, tt)))
contains-check_subtype equity s =
    contains-All (λ x. check_subtype "EQUITY" (subtype_as_str x) ≡ true) (valid_subtypes equity) s
      (refl, (refl, (refl, tt)))
contains-check_subtype income s =
    contains-All (λ x. check_subtype "INCOME" (subtype_as_str x) ≡ true) (valid_subtypes income) s
      (refl, (refl, tt))
contains-check_subtype expense s =
    contains-All (λ x. check_subtype "EXPENSE" (subtype_as_str x) ≡ true) (valid_subtypes expense) s
      (refl, (refl, (refl, (refl, tt))))

-- What `classify` gives for texts that the schema takes.
abbrev pub IsClass : String → String → Type 0
IsClass ty st =
    (t : AccountType) × (s : AccountSubtype) × (classify ty st ≡ ok (t, s))
    × (type_as_str t ≡ ty)
    × (subtype_as_str s ≡ st)

-- A classification that is accepted is one of the table.
chosen :
    (o : Option AccountType) (p : Option AccountSubtype) {t : AccountType} {s : AccountSubtype}
    → classified o p ≡ ok (t, s)
    → contains (valid_subtypes t) s ≡ true
chosen none p h = absurd (ground arith)
chosen (some t') none h = absurd (ground arith)
chosen (some t') (some s') h = elim (Bool-cases (contains (valid_subtypes t') s')) [
  | inl yes' ↦ ground (arith, h, yes')
  | inr no' ↦ absurd (ground (arith, h, no'))
]

pub classify-check_subtype :
    (ty st : String) (t : AccountType) (s : AccountSubtype)
    → classify ty st ≡ ok (t, s)
    → check_subtype (type_as_str t) (subtype_as_str s) ≡ true
unfolding classify
classify-check_subtype ty st t s h =
    contains-check_subtype t s (chosen (type_from_db ty) (subtype_from_db st) h)

asset-IsClass : (st : String) → check_subtype "ASSET" st ≡ true → IsClass "ASSET" st
unfolding classify type_from_db subtype_from_db
asset-IsClass st h =
    is_any-All (IsClass "ASSET")
      ("CURRENT_ASSET" ∷ "FIXED_ASSET" ∷ "INTANGIBLE_ASSET" ∷ "OTHER_ASSET" ∷ "EMPLOYEE_ADVANCE"
        ∷ [])
      st
      (
        (asset, current_asset, refl, refl, refl),
        (
          (asset, fixed_asset, refl, refl, refl),
          (
            (asset, intangible_asset, refl, refl, refl),
            (
              (asset, other_asset, refl, refl, refl),
              ((asset, employee_advance, refl, refl, refl), tt),
            ),
          ),
        ),
      )
      (ground (arith, h))

liability-IsClass : (st : String) → check_subtype "LIABILITY" st ≡ true → IsClass "LIABILITY" st
unfolding classify type_from_db subtype_from_db
liability-IsClass st h =
    is_any-All (IsClass "LIABILITY")
      ("CURRENT_LIABILITY" ∷ "LONG_TERM_LIABILITY" ∷ "EMPLOYEE_PAYABLE" ∷ []) st
      (
        (liability, current_liability, refl, refl, refl),
        (
          (liability, long_term_liability, refl, refl, refl),
          ((liability, employee_payable, refl, refl, refl), tt),
        ),
      )
      (ground (arith, h))

equity-IsClass : (st : String) → check_subtype "EQUITY" st ≡ true → IsClass "EQUITY" st
unfolding classify type_from_db subtype_from_db
equity-IsClass st h =
    is_any-All (IsClass "EQUITY") ("EQUITY" ∷ "RETAINED_EARNINGS" ∷ "DRAWING" ∷ []) st
      (
        (equity, owners_equity, refl, refl, refl),
        ((equity, retained_earnings, refl, refl, refl), ((equity, drawing, refl, refl, refl), tt)),
      )
      (ground (arith, h))

income-IsClass : (st : String) → check_subtype "INCOME" st ≡ true → IsClass "INCOME" st
unfolding classify type_from_db subtype_from_db
income-IsClass st h =
    is_any-All (IsClass "INCOME") ("OPERATING_INCOME" ∷ "NON_OPERATING_INCOME" ∷ []) st
      (
        (income, operating_income, refl, refl, refl),
        ((income, non_operating_income, refl, refl, refl), tt),
      )
      (ground (arith, h))

expense-IsClass : (st : String) → check_subtype "EXPENSE" st ≡ true → IsClass "EXPENSE" st
unfolding classify type_from_db subtype_from_db
expense-IsClass st h =
    is_any-All (IsClass "EXPENSE")
      ("COST_OF_GOODS_SOLD" ∷ "OPERATING_EXPENSE" ∷ "NON_OPERATING_EXPENSE" ∷ "TAX_EXPENSE" ∷ []) st
      (
        (expense, cost_of_goods_sold, refl, refl, refl),
        (
          (expense, operating_expense, refl, refl, refl),
          (
            (expense, non_operating_expense, refl, refl, refl),
            ((expense, tax_expense, refl, refl, refl), tt),
          ),
        ),
      )
      (ground (arith, h))

-- The forms take every pair of texts that the schema takes.
check_subtype-IsClass : (ty st : String) → check_subtype ty st ≡ true → IsClass ty st
check_subtype-IsClass ty st h = elim (Bool-cases (str_eq ty "ASSET")) [
  | inl a ↦
      let e = (eq_iff ty "ASSET").0 a in
      subst (λ x. IsClass x st) (sym e)
        (asset-IsClass st (subst (λ x. check_subtype x st ≡ true) e h))
  | inr a ↦ elim (Bool-cases (str_eq ty "LIABILITY")) [
    | inl b ↦
        let e = (eq_iff ty "LIABILITY").0 b in
        subst (λ x. IsClass x st) (sym e)
          (liability-IsClass st (subst (λ x. check_subtype x st ≡ true) e h))
    | inr b ↦ elim (Bool-cases (str_eq ty "EQUITY")) [
      | inl c ↦
          let e = (eq_iff ty "EQUITY").0 c in
          subst (λ x. IsClass x st) (sym e)
            (equity-IsClass st (subst (λ x. check_subtype x st ≡ true) e h))
      | inr c ↦ elim (Bool-cases (str_eq ty "INCOME")) [
        | inl d ↦
            let e = (eq_iff ty "INCOME").0 d in
            subst (λ x. IsClass x st) (sym e)
              (income-IsClass st (subst (λ x. check_subtype x st ≡ true) e h))
        | inr d ↦
            let e = (eq_iff ty "EXPENSE").0 (ground (arith, h, a, b, c, d)) in
            subst (λ x. IsClass x st) (sym e)
              (expense-IsClass st (subst (λ x. check_subtype x st ≡ true) e h))
      ]
    ]
  ]
]

-- A type and a subtype in a form are accepted as the pair that the texts name exactly when the
-- CHECK constraint of the table holds of the texts.
pub classify_iff : (ty st : String) → IsClass ty st ↔ (check_subtype ty st ≡ true)
classify_iff ty st = (
  λ c.
      let (t, s, h, same_type, same_subtype) = c in
      subst (λ x. check_subtype x st ≡ true) same_type
        (subst (λ y. check_subtype (type_as_str t) y ≡ true) same_subtype
          (classify-check_subtype ty st t s h)),
  check_subtype-IsClass ty st,
)
