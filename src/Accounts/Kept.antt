-- ===== src/Accounts/Kept.antt =====
-- What a creation and an edit of an account are refused for, and what an edit leaves alone.
use openaccounting.Prelude.{
  ℕ, String, true, false, ◌&&◌, Option, none, some, List, [], ◌∷◌, map, ◌==◌, ◌≡◌, ◌≢◌, refl, ap,
  sym, ◌∙◌, arith, Bool-cases, Option-cases, inl, inr,
}
use openaccounting.Prelude.Tables.{find, update, exists}
use openaccounting.Prelude.Results.{ok, err, Result-cases}
use openaccounting.Prelude.Texts.{Text, trim}
use openaccounting.Posting.Data.{Posting, Scoped}
use openaccounting.Reports.Data.{Account}
use openaccounting.Reports.LedgerBalance.{IsKeyed}
use openaccounting.Reports.GrandTotal.{scoped}
use openaccounting.Accounts.Chart.{
  AccountType, AccountSubtype, type_from_db, subtype_from_db, valid_subtypes, contains,
}
use openaccounting.Accounts.Handlers.{
  AccountError, NewAccountForm, EditAccountForm, has_name, classified, classify, create_account,
  can_change_type, update_account,
}
use openaccounting.Accounts.Classified.{classify-check_subtype}

-- The checks of the classification never report a conflict.
classified_error :
    (o : Option AccountType) (p : Option AccountSubtype)
    → classified o p ≢ err AccountError.conflict
classified_error none p h = absurd (ground arith)
classified_error (some t) none h = absurd (ground arith)
classified_error (some t) (some s) h = elim (Bool-cases (contains (valid_subtypes t) s)) [
  | inl member ↦ absurd (ground (arith, h, member))
  | inr missing ↦ absurd (ground (arith, h, missing))
]

-- If `create_account` reports a conflict, the ledger has an account of the trimmed name; the CHECK
-- constraint is never what refuses the row.
pub create_account-conflict :
    (id ledger : ℕ) (form : NewAccountForm) (rows : List Account)
    → create_account id ledger form rows ≡ err AccountError.conflict
    → exists (has_name ledger (trim form.name)) rows ≡ true
unfolding create_account classify
create_account-conflict id ledger form rows h =
    elim (Result-cases (classify form.account_type form.account_subtype)) [
      | inl ((t, s), e) ↦
          let accepted = classify-check_subtype form.account_type form.account_subtype t s e in
          ground (arith, h, e, accepted)
      | inr (x, e) ↦
          let same : x ≡ AccountError.conflict = ground (arith, h, e) in
          absurd (
            classified_error (type_from_db form.account_type) (subtype_from_db form.account_subtype)
              (e ∙ ap err same))
    ]

-- What an edit of another account's classification would change.
abbrev pub kind_of : Account → String × String
kind_of a = (a.type_str, a.subtype_str)

abbrev retyped : Text → String × String → Account → Account
retyped name kind b = record b { name = name; type_str = kind.0; subtype_str = kind.1 }

no_row :
    (id ledger : ℕ) (f : Account → Account) (rows : List Account)
    → exists (λ (b : Scoped). b.id == id) (map scoped rows) ≡ false
    → update (λ (b : Account). b.id == id && b.ledger_id == ledger) f rows ≡ rows
no_row id ledger f [] h = refl
no_row id ledger f (r ∷ rs) h = ground (arith, no_row id ledger f rs)

update_same_kind :
    (id ledger : ℕ) (name : Text) (a : Account) (rows : List Account)
    → IsKeyed (map scoped rows)
    → find (λ (b : Account). b.id == id && b.ledger_id == ledger) rows ≡ some a
    → map kind_of (
        update
          (λ (b : Account). b.id == id && b.ledger_id == ledger)
          (retyped name (kind_of a))
          rows)
      ≡ map kind_of rows
update_same_kind id ledger name a [] k h = refl
update_same_kind id ledger name a (r ∷ rs) k h =
    elim (Bool-cases (r.id == id && r.ledger_id == ledger)) [
      | inl here ↦
          let e : r.id ≡ id = ground (arith, here) in
          let same : r ≡ a = ground (arith, here, h) in
          let first : exists (λ (b : Scoped). b.id == id) (map scoped rs) ≡ false =
            rw (sym e) k.0 in
          rw here (
            ap (λ ks. (a.type_str, a.subtype_str) ∷ ks)
              (ap (map kind_of) (no_row id ledger (retyped name (kind_of a)) rs first))
            ∙ ap (λ z. kind_of z ∷ map kind_of rs) (sym same))
      | inr other ↦ rw other (
          ap (λ ks. kind_of r ∷ ks)
            (update_same_kind id ledger name a rs k.1 (ground (arith, h, other))))
    ]

-- If the identifiers of the accounts are unique and an account has a posting, then a successful
-- edit of it, whatever the form says, leaves the types and subtypes of all accounts as they were.
pub update_account_keeps_kind :
    (ledger id : ℕ) (form : EditAccountForm) (ps : List Posting) (rows rows' : List Account)
    → IsKeyed (map scoped rows)
    → can_change_type id ps ≡ false
    → update_account ledger id form ps rows ≡ ok rows'
    → map kind_of rows' ≡ map kind_of rows
unfolding update_account
update_account_keeps_kind ledger id form ps rows rows' k posted h =
    elim (Option-cases (find (λ (b : Account). b.id == id && b.ledger_id == ledger) rows)) [
      | inl missing ↦ absurd (ground (arith, h, missing))
      | inr (a, found) ↦
          let e : rows'
              ≡ update (λ (b : Account). b.id == id && b.ledger_id == ledger)
                  (retyped (trim form.name) (kind_of a)) rows =
            ground (arith, h, found, posted) in
          ap (map kind_of) e ∙ update_same_kind id ledger (trim form.name) a rows k found
    ]
