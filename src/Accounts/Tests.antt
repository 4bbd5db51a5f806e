-- ===== src/Accounts/Tests.antt =====
-- The theorems about the chart of accounts at small forms and tables.
use openaccounting.Prelude.{true, none, some, List, [], ◌∷◌, ◌≡◌, ◌↔◌, refl, map}
use openaccounting.Prelude.Texts.{Text, trim, trim_start, is_whitespace, text_eq}
use openaccounting.Posting.Data.{debit, Posting}
use openaccounting.Reports.Data.{Account}
use openaccounting.Accounts.Handlers.{
  NewAccountForm, EditAccountForm, check_subtype, update_account,
}
use openaccounting.Accounts.Classified.{IsClass, classify_iff}
use openaccounting.Accounts.Kept.{update_account_keeps_kind, kind_of}

abbrev bank : Text
bank = 98 ∷ 97 ∷ 110 ∷ 107 ∷ []

abbrev rows : List Account
rows =
    record {
      id = 10;
      ledger_id = 1;
      name = bank;
      type_str = "ASSET";
      subtype_str = "CURRENT_ASSET";
    }
    ∷ []

classify_iff_example :
    IsClass "LIABILITY" "EMPLOYEE_PAYABLE" ↔ (check_subtype "LIABILITY" "EMPLOYEE_PAYABLE" ≡ true)
classify_iff_example = classify_iff "LIABILITY" "EMPLOYEE_PAYABLE"

-- A new account named like the bank, with a space after the name.
abbrev second_bank : NewAccountForm
second_bank = record {
  name = 98 ∷ 97 ∷ 110 ∷ 107 ∷ 32 ∷ [];
  account_type = "EQUITY";
  account_subtype = "DRAWING";
}

abbrev edit : EditAccountForm
edit = record { name = bank; account_type = some "INCOME"; account_subtype = none }

abbrev deposit : Posting
deposit = record {
  id = 1;
  transaction_id = 1;
  account_id = 10;
  amount = 5;
  direction = debit;
  memo = none;
  foreign_amount = none;
  foreign_currency = none;
  cost_center_id = none;
  project_id = none;
}

update_account_keeps_kind_example : map kind_of rows ≡ map kind_of rows
unfolding update_account trim trim_start is_whitespace text_eq
update_account_keeps_kind_example =
    update_account_keeps_kind 1 10 edit (deposit ∷ []) rows rows (refl, tt) refl refl
