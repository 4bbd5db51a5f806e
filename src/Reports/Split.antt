-- ===== src/Reports/Split.antt =====
-- How the sections of the balance sheet divide the accounts of a ledger among them.
use openaccounting.Prelude.{
  ℕ, String, Bool, true, ◌&&◌, ◌||◌, not, ◌≡◌, arith, str_eq, if◌then◌else◌, Bool-cases, inl, inr,
  eq_iff,
}
use openaccounting.Prelude.Int.{ℤ, pos, ◌+ℤ◌, int_laws, parts}
use openaccounting.Prelude.Texts.{Text}
use openaccounting.Reports.Data.{Account, AccountNet}
use openaccounting.Reports.BalanceSheet.{is_permanent, asset_subtypes, liability_subtypes, negated}
use openaccounting.Reports.Income.{is_temporary}
use openaccounting.Reports.Sections.{section_amount, is_equity}

-- Assets and liabilities whose subtype is in no section.
abbrev pub is_unlisted : Account → Bool
is_unlisted a =
    if str_eq a.type_str "ASSET"
    then not (
        str_eq a.subtype_str "CURRENT_ASSET"
        || str_eq a.subtype_str "FIXED_ASSET"
        || str_eq a.subtype_str "INTANGIBLE_ASSET"
        || str_eq a.subtype_str "OTHER_ASSET")
    else str_eq a.type_str "LIABILITY"
      && not
          (str_eq a.subtype_str "CURRENT_LIABILITY" || str_eq a.subtype_str "LONG_TERM_LIABILITY")

-- `CHECK (type IN ('ASSET','LIABILITY','EQUITY','INCOME','EXPENSE'))`
abbrev pub IsTyped : Account → Type 0
IsTyped a = (is_permanent a || is_temporary a) ≡ true

abbrev pub equity_amount : AccountNet → ℤ
equity_amount n = if is_equity n then negated n.net else pos 0

abbrev pub earned : AccountNet → ℤ
earned n = if is_temporary n.account then negated n.net else pos 0

abbrev pub unlisted : AccountNet → ℤ
unlisted n = if is_unlisted n.account then n.net else pos 0

-- An amount is under exactly one of the subtypes, or under none of them.
one_of_four :
    (s : String) (x : ℤ)
    → ((if str_eq s "CURRENT_ASSET" then x else pos 0)
          +ℤ ((if str_eq s "FIXED_ASSET" then x else pos 0)
              +ℤ ((if str_eq s "INTANGIBLE_ASSET" then x else pos 0)
                  +ℤ ((if str_eq s "OTHER_ASSET" then x else pos 0) +ℤ pos 0))))
        +ℤ (if not (
              str_eq s "CURRENT_ASSET"
              || str_eq s "FIXED_ASSET"
              || str_eq s "INTANGIBLE_ASSET"
              || str_eq s "OTHER_ASSET")
            then x
            else pos 0)
      ≡ x
one_of_four s x = elim (Bool-cases (str_eq s "CURRENT_ASSET")) [
  | inl a ↦ rw ((eq_iff s "CURRENT_ASSET").0 a) (omega int_laws)
  | inr a ↦ elim (Bool-cases (str_eq s "FIXED_ASSET")) [
    | inl b ↦ rw ((eq_iff s "FIXED_ASSET").0 b) (omega int_laws)
    | inr b ↦ elim (Bool-cases (str_eq s "INTANGIBLE_ASSET")) [
      | inl c ↦ rw ((eq_iff s "INTANGIBLE_ASSET").0 c) (omega int_laws)
      | inr c ↦ elim (Bool-cases (str_eq s "OTHER_ASSET")) [
        | inl d ↦ rw ((eq_iff s "OTHER_ASSET").0 d) (omega int_laws)
        | inr d ↦ rw (a, b, c, d) (omega int_laws)
      ]
    ]
  ]
]

one_of_two :
    (s : String) (x : ℤ)
    → pos 0
        +ℤ (if not (str_eq s "CURRENT_LIABILITY" || str_eq s "LONG_TERM_LIABILITY")
            then x
            else pos 0)
      ≡ ((if str_eq s "CURRENT_LIABILITY" then negated x else pos 0)
          +ℤ ((if str_eq s "LONG_TERM_LIABILITY" then negated x else pos 0) +ℤ pos 0))
        +ℤ x
one_of_two s x = elim (Bool-cases (str_eq s "CURRENT_LIABILITY")) [
  | inl a ↦ rw ((eq_iff s "CURRENT_LIABILITY").0 a) (omega int_laws)
  | inr a ↦ elim (Bool-cases (str_eq s "LONG_TERM_LIABILITY")) [
    | inl b ↦ rw ((eq_iff s "LONG_TERM_LIABILITY").0 b) (omega int_laws)
    | inr b ↦ rw (a, b) (omega int_laws)
  ]
]

abbrev at_account : ℕ → ℕ → Text → String → String → ℤ → AccountNet
at_account id ledger name ty st x = record {
  account = record { id = id; ledger_id = ledger; name = name; type_str = ty; subtype_str = st };
  net = x;
}

abbrev pub IsSplit : AccountNet → Type 0
IsSplit n =
    section_amount (λ x. x) "ASSET" asset_subtypes n +ℤ unlisted n
    ≡ ((section_amount negated "LIABILITY" liability_subtypes n +ℤ equity_amount n) +ℤ earned n)
      +ℤ n.net

at_account-IsSplit :
    (id ledger : ℕ) (name : Text) (ty st : String) (x : ℤ)
    → IsTyped (at_account id ledger name ty st x).account
    → IsSplit (at_account id ledger name ty st x)
at_account-IsSplit id ledger name ty st x h = elim (Bool-cases (str_eq ty "ASSET")) [
  | inl a ↦ rw ((eq_iff ty "ASSET").0 a) (omega (int_laws, parts (one_of_four st x)))
  | inr a ↦ elim (Bool-cases (str_eq ty "LIABILITY")) [
    | inl b ↦ rw ((eq_iff ty "LIABILITY").0 b) (omega (int_laws, parts (one_of_two st x)))
    | inr b ↦ elim (Bool-cases (str_eq ty "EQUITY")) [
      | inl c ↦ rw ((eq_iff ty "EQUITY").0 c) (omega int_laws)
      | inr c ↦ elim (Bool-cases (str_eq ty "INCOME")) [
        | inl d ↦ rw ((eq_iff ty "INCOME").0 d) (omega int_laws)
        | inr d ↦
            let e : str_eq ty "EXPENSE" ≡ true = ground arith in
            rw ((eq_iff ty "EXPENSE").0 e) (omega int_laws)
      ]
    ]
  ]
]

-- Every account is in one section, in the equity, in the earnings or in none of them.
pub pointwise : (n : AccountNet) → IsTyped n.account → IsSplit n
pointwise n h =
    at_account-IsSplit n.account.id n.account.ledger_id n.account.name n.account.type_str
      n.account.subtype_str n.net h
