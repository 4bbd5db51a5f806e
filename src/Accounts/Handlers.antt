-- ===== src/Accounts/Handlers.antt =====
-- `src/handlers/accounts.rs`: the creation and the edit of an account, with what the schema of
-- `accounts` refuses (`migrations/0001_init.sql`, `migrations/0019_add_reimbursement.sql`).
use openaccounting.Prelude.{
  ℕ, String, Bool, true, false, ◌&&◌, ◌||◌, not, Option, none, some, List, [], ◌∷◌, ◌++◌, ◌==◌,
  str_eq,
}
use openaccounting.Prelude.Tables.{find, update, exists, count}
use openaccounting.Prelude.Results.{Result, ok, ◌>>=◌, ◌>>◌, fail_if, ok_or}
use openaccounting.Prelude.Texts.{Text, text_eq, trim}
use openaccounting.Posting.Data.{Posting}
use openaccounting.Reports.Data.{Account}
use openaccounting.Accounts.Chart.{
  AccountType, AccountSubtype, type_as_str, subtype_as_str, type_from_db, subtype_from_db,
  valid_subtypes, contains,
}

-- The messages of the page that is rendered again, `AppError::NotFound` and the conflict of a
-- refused statement.
pub data AccountError : Type 0 where
  invalid_type invalid_subtype not_valid_for_type name_required not_found conflict : AccountError

pub record NewAccountForm : Type 0 where
  pub name : Text
  pub account_type : String
  pub account_subtype : String

pub record EditAccountForm : Type 0 where
  pub name : Text
  pub account_type : Option String
  pub account_subtype : Option String

abbrev pub is_any : List String → String → Bool
is_any keys s = exists (λ k. str_eq s k) keys

-- `chk_account_subtype`
abbrev pub check_subtype : String → String → Bool
check_subtype ty st =
    (str_eq ty "ASSET"
      && is_any
          ("CURRENT_ASSET" ∷ "FIXED_ASSET" ∷ "INTANGIBLE_ASSET" ∷ "OTHER_ASSET" ∷ "EMPLOYEE_ADVANCE"
            ∷ [])
          st)
    || (str_eq ty "LIABILITY"
        && is_any ("CURRENT_LIABILITY" ∷ "LONG_TERM_LIABILITY" ∷ "EMPLOYEE_PAYABLE" ∷ []) st)
    || (str_eq ty "EQUITY" && is_any ("EQUITY" ∷ "RETAINED_EARNINGS" ∷ "DRAWING" ∷ []) st)
    || (str_eq ty "INCOME" && is_any ("OPERATING_INCOME" ∷ "NON_OPERATING_INCOME" ∷ []) st)
    || (str_eq ty "EXPENSE"
        && is_any
            ("COST_OF_GOODS_SOLD" ∷ "OPERATING_EXPENSE" ∷ "NON_OPERATING_EXPENSE" ∷ "TAX_EXPENSE"
              ∷ [])
            st)

-- UNIQUE (ledger_id, name)
abbrev pub has_name : ℕ → Text → Account → Bool
has_name ledger name a = a.ledger_id == ledger && text_eq a.name name

-- The checks of the type and the subtype of a form, in order.
abbrev pub classified :
    Option AccountType → Option AccountSubtype → Result AccountError (AccountType × AccountSubtype)
classified ty st = do
  t ← ok_or ty AccountError.invalid_type
  s ← ok_or st AccountError.invalid_subtype
  fail_if (not (contains (valid_subtypes t) s)) AccountError.not_valid_for_type
  ok (t, s)

unfoldable pub classify : String → String → Result AccountError (AccountType × AccountSubtype)
classify ty st = classified (type_from_db ty) (subtype_from_db st)

abbrev pub is_blank : Text → Bool
is_blank [] = true
is_blank (c ∷ s) = false

unfoldable pub create_account :
    ℕ → ℕ → NewAccountForm → List Account → Result AccountError (List Account)
create_account id ledger form rows = do
  kind ← classify form.account_type form.account_subtype
  fail_if (is_blank (trim form.name)) AccountError.name_required
  fail_if
      (not (check_subtype (type_as_str kind.0) (subtype_as_str kind.1))
        || exists (has_name ledger (trim form.name)) rows)
      AccountError.conflict
  ok (
      rows
      ++ record {
        id = id;
        ledger_id = ledger;
        name = trim form.name;
        type_str = type_as_str kind.0;
        subtype_str = subtype_as_str kind.1;
      }
        ∷ [])

abbrev pub form_text : Option String → String
form_text none = ""
form_text (some s) = s

abbrev pub new_kind : Bool → Account → EditAccountForm → Result AccountError (String × String)
new_kind true a form =
    classify (form_text form.account_type) (form_text form.account_subtype) >>= λ kind.
    ok (type_as_str kind.0, subtype_as_str kind.1)
new_kind false a form = ok (a.type_str, a.subtype_str)

-- SELECT COUNT(*) FROM postings WHERE account_id = $1, compared with 0
abbrev pub can_change_type : ℕ → List Posting → Bool
can_change_type account ps = count (λ (p : Posting). p.account_id == account) ps == 0

unfoldable pub update_account :
    ℕ → ℕ → EditAccountForm → List Posting → List Account → Result AccountError (List Account)
update_account ledger id form ps rows = do
  a ←
      ok_or (find (λ (a : Account). a.id == id && a.ledger_id == ledger) rows)
        AccountError.not_found
  fail_if (is_blank (trim form.name)) AccountError.name_required
  kind ← new_kind (can_change_type id ps) a form
  fail_if
      (not (check_subtype kind.0 kind.1)
        || exists (λ (b : Account). not (b.id == id) && has_name ledger (trim form.name) b) rows)
      AccountError.conflict
  ok (
      update (λ (b : Account). b.id == id && b.ledger_id == ledger)
        (λ (b : Account). record b {
          name = trim form.name;
          type_str = kind.0;
          subtype_str = kind.1;
        })
        rows)
