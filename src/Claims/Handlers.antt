-- ===== src/Claims/Handlers.antt =====
-- `src/handlers/reimbursement.rs`: the handlers that draft, submit and reject a claim. The user is
-- signed in; a parsed field is `none` where its text does not parse. The entry that `create` hands
-- to `audit::log` afterwards, whose result it drops, is not part of this state.
use openaccounting.Prelude.{
  ℕ, zero, suc, String, Bool, true, false, ◌&&◌, ◌||◌, not, Option, none, some, List, [], ◌∷◌, ◌==◌,
  str_eq, length,
}
use openaccounting.Prelude.Int.{ℤ, pos, pos_part, ltb_ℤ, leb_ℤ}
use openaccounting.Prelude.Tables.{find, exists}
use openaccounting.Prelude.Results.{Result, ok, ◌>>=◌, ◌>>◌, fail_if, ok_or}
use openaccounting.Prelude.Texts.{Text, text_eq, trim}
use openaccounting.Claims.Status.{
  ClaimStatus, draft, submitted, partially_approved, fully_approved, approved, rejected, paid,
  can_transition_to,
}
use openaccounting.Claims.Data.{Account, Claim, Line, Db, Env}
use openaccounting.Claims.Access.{
  Error, validation, ensure_writer, load_claim, edit_claim, log_event, update_status,
}
use openaccounting.Claims.Check.{
  lines_of, collect_policy_violations, hard_violation_message, blocked_by,
}

abbrev pub is_empty {ℓ} : {A : Type ℓ} → List A → Bool
is_empty [] = true
is_empty (_ ∷ _) = false

abbrev first : ℕ → Text → Text
first zero s = []
first (suc n) [] = []
first (suc n) (c ∷ s) = c ∷ first n s

-- `format_short_id`
unfoldable pub format_short_id : Env → ℕ → Text
format_short_id env uuid = first 8 (env.hex uuid)

pub record NewClaimForm : Type 0 where
  pub title : Text
  pub currency : Text
  pub employee_name : Text

unfoldable pub claim_row : Env → ℕ → ℕ → ℕ → NewClaimForm → Claim
unfolding format_short_id
claim_row env id user ledger form = record {
  id = id;
  ledger_id = ledger;
  short_id = format_short_id env id;
  employee_id = user;
  employee_name = trim form.employee_name;
  title = trim form.title;
  currency = env.uppercase form.currency;
  status = "draft";
  approved_by = none;
  rejected_reason = none;
  payout_account_id = none;
}

-- The primary key, and UNIQUE (ledger_id, short_id).
abbrev pub clashes : Claim → Claim → Bool
clashes new c = c.id == new.id || (c.ledger_id == new.ledger_id && text_eq c.short_id new.short_id)

unfoldable pub create : Env → Db → ℕ → ℕ → ℕ → NewClaimForm → Result Error Db
unfolding claim_row
create env db user ledger id form = do
  l ← ensure_writer db user ledger
  fail_if (is_empty (trim form.title)) (validation "title is required")
  fail_if (not (length form.currency == 3)) (validation "currency must be a 3-letter code")
  fail_if (is_empty (trim form.employee_name)) (validation "employee_name is required")
  fail_if (not (text_eq (env.uppercase form.currency) (env.uppercase l.base_currency)))
      (validation "currency mismatch")
  fail_if (exists (clashes (claim_row env id user ledger form)) db.claims) Error.refused
  ok (
      log_event id user "create"
        (record db { claims = claim_row env id user ledger form ∷ db.claims }))

pub record NewLineForm : Type 0 where
  pub txn_date : Option ℕ
  pub amount : Option ℤ
  pub gl_account_id : ℕ
  pub tax_amount : Option ℤ
  pub advance_amount : Option ℤ

abbrev pub is_draft : ClaimStatus → Bool
is_draft draft = true
is_draft submitted = false
is_draft partially_approved = false
is_draft fully_approved = false
is_draft approved = false
is_draft rejected = false
is_draft paid = false

abbrev pub is_expense : String → Bool
is_expense s =
    str_eq s "OPERATING_EXPENSE"
    || str_eq s "COST_OF_GOODS_SOLD"
    || str_eq s "NON_OPERATING_EXPENSE"
    || str_eq s "TAX_EXPENSE"

abbrev pub account_in : ℕ → ℕ → Account → Bool
account_in ledger account a = a.id == account && a.ledger_id == ledger

-- CHECK (tax_amount >= 0), CHECK (advance_amount >= 0)
unfoldable pub insert_line : Db → ℕ → ℕ → ℤ → ℕ → ℤ → ℤ → Result Error Db
insert_line db claim date amount account tax advance =
    fail_if (ltb_ℤ tax (pos 0) || ltb_ℤ advance (pos 0)) Error.refused
    >> (let row : Line = record {
      claim_id = claim;
      txn_date = date;
      amount = pos_part amount;
      gl_account_id = account;
      tax_amount = pos_part tax;
      advance_amount = pos_part advance;
    } in
        ok (record db { lines = row ∷ db.lines }))

unfoldable pub add_line : Db → ℕ → ℕ → ℕ → NewLineForm → Result Error Db
unfolding insert_line
add_line db user ledger claim form = do
  _ ← ensure_writer db user ledger
  c ← load_claim db claim ledger
  fail_if (not (is_draft c.status)) (validation "only drafts accept new lines")
  amount ← ok_or form.amount (validation "bad amount")
  fail_if (leb_ℤ amount (pos 0)) (validation "amount must be positive")
  tax ← ok_or form.tax_amount (validation "bad tax_amount")
  advance ← ok_or form.advance_amount (validation "bad advance_amount")
  date ← ok_or form.txn_date (validation "bad date")
  a ←
      ok_or (find (account_in ledger form.gl_account_id) db.accounts)
        (validation "gl_account not in ledger")
  fail_if (not (is_expense a.subtype)) (validation "gl account subtype is not an EXPENSE")
  insert_line db claim date amount form.gl_account_id tax advance

unfoldable pub submit : Env → Db → ℕ → ℕ → ℕ → Result Error Db
unfolding update_status
submit env db user ledger claim = do
  _ ← ensure_writer db user ledger
  c ← load_claim db claim ledger
  fail_if (not (can_transition_to c.status submitted)) (validation "claim cannot be submitted")
  fail_if (is_empty (lines_of db claim)) (validation "cannot submit an empty claim")
  violations ← collect_policy_violations env db claim
  blocked_by (hard_violation_message violations)
  ok (update_status db claim user submitted)

unfoldable pub reject : Db → ℕ → ℕ → ℕ → Text → Result Error Db
unfolding update_status
reject db user ledger claim reason = do
  _ ← ensure_writer db user ledger
  c ← load_claim db claim ledger
  fail_if (not (can_transition_to c.status rejected)) (validation "claim cannot be rejected")
  fail_if (is_empty (trim reason)) (validation "rejection reason is required")
  ok (
      update_status (edit_claim (λ r. record r { rejected_reason = some (trim reason) }) claim db)
        claim user rejected)
