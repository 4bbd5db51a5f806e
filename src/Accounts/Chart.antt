-- ===== src/Accounts/Chart.antt =====
-- `src/domain/account.rs`: the types and subtypes of accounts and their names in the database.
use openaccounting.Prelude.{
  ℕ, String, Bool, Option, none, some, List, [], ◌∷◌, ◌==◌, str_eq, if◌then◌else◌,
}
use openaccounting.Prelude.Tables.{exists}
use openaccounting.Posting.Data.{Direction, debit, credit}

pub data AccountType : Type 0 where
  asset liability equity income expense : AccountType

pub data AccountSubtype : Type 0 where
  current_asset fixed_asset intangible_asset other_asset employee_advance : AccountSubtype
  current_liability long_term_liability employee_payable : AccountSubtype
  owners_equity retained_earnings drawing : AccountSubtype
  operating_income non_operating_income : AccountSubtype
  cost_of_goods_sold operating_expense non_operating_expense tax_expense : AccountSubtype

abbrev pub type_as_str : AccountType → String
type_as_str asset = "ASSET"
type_as_str liability = "LIABILITY"
type_as_str equity = "EQUITY"
type_as_str income = "INCOME"
type_as_str expense = "EXPENSE"

-- A `match` on string literals, as its arms in order.
abbrev pub match_arms {ℓ} : {A : Type ℓ} → List (String × A) → String → Option A
match_arms [] s = none
match_arms ((k, a) ∷ arms) s = if str_eq s k then some a else match_arms arms s

unfoldable pub type_from_db : String → Option AccountType
type_from_db s =
    match_arms
      (("ASSET", asset)
        ∷ ("LIABILITY", liability)
        ∷ ("EQUITY", equity)
        ∷ ("INCOME", income)
        ∷ ("EXPENSE", expense)
        ∷ [])
      s

abbrev pub normal_direction : AccountType → Direction
normal_direction asset = debit
normal_direction liability = credit
normal_direction equity = credit
normal_direction income = credit
normal_direction expense = debit

abbrev pub valid_subtypes : AccountType → List AccountSubtype
valid_subtypes asset =
    current_asset ∷ fixed_asset ∷ intangible_asset ∷ other_asset ∷ employee_advance ∷ []
valid_subtypes liability = current_liability ∷ long_term_liability ∷ employee_payable ∷ []
valid_subtypes equity = owners_equity ∷ retained_earnings ∷ drawing ∷ []
valid_subtypes income = operating_income ∷ non_operating_income ∷ []
valid_subtypes expense =
    cost_of_goods_sold ∷ operating_expense ∷ non_operating_expense ∷ tax_expense ∷ []

abbrev pub subtype_as_str : AccountSubtype → String
subtype_as_str current_asset = "CURRENT_ASSET"
subtype_as_str fixed_asset = "FIXED_ASSET"
subtype_as_str intangible_asset = "INTANGIBLE_ASSET"
subtype_as_str other_asset = "OTHER_ASSET"
subtype_as_str employee_advance = "EMPLOYEE_ADVANCE"
subtype_as_str current_liability = "CURRENT_LIABILITY"
subtype_as_str long_term_liability = "LONG_TERM_LIABILITY"
subtype_as_str employee_payable = "EMPLOYEE_PAYABLE"
subtype_as_str owners_equity = "EQUITY"
subtype_as_str retained_earnings = "RETAINED_EARNINGS"
subtype_as_str drawing = "DRAWING"
subtype_as_str operating_income = "OPERATING_INCOME"
subtype_as_str non_operating_income = "NON_OPERATING_INCOME"
subtype_as_str cost_of_goods_sold = "COST_OF_GOODS_SOLD"
subtype_as_str operating_expense = "OPERATING_EXPENSE"
subtype_as_str non_operating_expense = "NON_OPERATING_EXPENSE"
subtype_as_str tax_expense = "TAX_EXPENSE"

-- The arms of `AccountSubtype::from_db`, in order.
abbrev pub subtype_arms : List (String × AccountSubtype)
subtype_arms =
    ("CURRENT_ASSET", current_asset)
    ∷ ("FIXED_ASSET", fixed_asset)
    ∷ ("INTANGIBLE_ASSET", intangible_asset)
    ∷ ("OTHER_ASSET", other_asset)
    ∷ ("EMPLOYEE_ADVANCE", employee_advance)
    ∷ ("CURRENT_LIABILITY", current_liability)
    ∷ ("LONG_TERM_LIABILITY", long_term_liability)
    ∷ ("EMPLOYEE_PAYABLE", employee_payable)
    ∷ ("EQUITY", owners_equity)
    ∷ ("RETAINED_EARNINGS", retained_earnings)
    ∷ ("DRAWING", drawing)
    ∷ ("OPERATING_INCOME", operating_income)
    ∷ ("NON_OPERATING_INCOME", non_operating_income)
    ∷ ("COST_OF_GOODS_SOLD", cost_of_goods_sold)
    ∷ ("OPERATING_EXPENSE", operating_expense)
    ∷ ("NON_OPERATING_EXPENSE", non_operating_expense)
    ∷ ("TAX_EXPENSE", tax_expense)
    ∷ []

unfoldable pub subtype_from_db : String → Option AccountSubtype
subtype_from_db s = match_arms subtype_arms s

-- The derived `PartialEq` of a fieldless enum compares the discriminants.
abbrev pub discriminant : AccountSubtype → ℕ
discriminant current_asset = 0
discriminant fixed_asset = 1
discriminant intangible_asset = 2
discriminant other_asset = 3
discriminant employee_advance = 4
discriminant current_liability = 5
discriminant long_term_liability = 6
discriminant employee_payable = 7
discriminant owners_equity = 8
discriminant retained_earnings = 9
discriminant drawing = 10
discriminant operating_income = 11
discriminant non_operating_income = 12
discriminant cost_of_goods_sold = 13
discriminant operating_expense = 14
discriminant non_operating_expense = 15
discriminant tax_expense = 16

-- `valid_subtypes().contains(&s)`
abbrev pub contains : List AccountSubtype → AccountSubtype → Bool
contains xs s = exists (λ x. discriminant x == discriminant s) xs
