-- ===== src/Claims/Pay.antt =====
-- `pay` (`src/handlers/reimbursement.rs`): the payout of a claim. The identifiers of the two new
-- transactions and their day and time are arguments.
use openaccounting.Prelude.{
  ℕ, Bool, false, ◌&&◌, ◌||◌, not, Option, none, some, List, [], ◌∷◌, leb, ◌==◌, str_eq,
}
use openaccounting.Prelude.Int.{ℤ}
use openaccounting.Prelude.Tables.{find, select}
use openaccounting.Prelude.Sums.{sum_ℤ, order_by}
use openaccounting.Prelude.Results.{Result, ok, ◌>>=◌, ◌>>◌, fail_if, ok_or}
use openaccounting.Prelude.Texts.{text_eq}
use openaccounting.Claims.Status.{paid, can_transition_to}
use openaccounting.Claims.Data.{Account, Claim, Txn, Posting, Db, Env}
use openaccounting.Claims.Access.{
  Error, validation, internal, ensure_writer, load_claim, edit_claim, log_event,
}
use openaccounting.Claims.Handlers.{account_in}
use openaccounting.Claims.Trigger.{credit_amount, insert_postings}
use openaccounting.Claims.Approve.{payable_account, leg, credit_leg}

unfoldable pub is_payout : Env → Account → Bool
is_payout env a =
    str_eq a.kind "ASSET"
    && ((str_eq a.subtype "CURRENT_ASSET"
          || str_eq a.subtype "OTHER_ASSET"
          || str_eq a.subtype "EMPLOYEE_ADVANCE")
        || env.names_bank a.subtype)

abbrev pub refers_to : ℕ → Claim → Txn → Bool
refers_to ledger c t = t.ledger_id == ledger && text_eq t.reference c.short_id

abbrev pub first_of : List Txn → Option Txn
first_of [] = none
first_of (t ∷ _) = some t

-- ORDER BY created_at DESC LIMIT 1
unfoldable pub latest_txn : Db → ℕ → Claim → Option Txn
latest_txn db ledger c = first_of (
    order_by (λ (t u : Txn). leb u.created_at t.created_at)
      (select (refers_to ledger c) db.transactions))

abbrev pub credits_payable : Db → ℕ → Posting → Bool
credits_payable db txn p =
    p.transaction_id == txn && (elim (find (λ (a : Account). a.id == p.account_id) db.accounts) [
      | none ↦ false
      | some a ↦ str_eq a.subtype "EMPLOYEE_PAYABLE"
    ])

-- The credits alone are summed: a debit counts nothing.
unfoldable pub net_payable : Db → ℕ → ℤ
net_payable db txn = sum_ℤ credit_amount (select (credits_payable db txn) db.postings)

unfoldable pub payout_row : ℕ → ℕ → Claim → ℕ → ℕ → ℕ → Txn
payout_row id ledger c user today now = record {
  id = id;
  ledger_id = ledger;
  txn_date = today;
  payee = c.employee_name;
  reference = c.short_id;
  currency = c.currency;
  created_by = user;
  created_at = now;
}

-- The header of the payout is inserted twice; the postings are those of the second.
unfoldable pub pay : Env → Db → ℕ → ℕ → ℕ → ℕ → (first second today now : ℕ) → Result Error Db
unfolding is_payout payable_account latest_txn net_payable payout_row
pay env db user ledger claim payout first second today now = do
  _ ← ensure_writer db user ledger
  c ← load_claim db claim ledger
  fail_if (not (can_transition_to c.status paid)) (validation "claim cannot be paid")
  a ←
      ok_or (find (account_in ledger payout) db.accounts)
        (validation "payout account not in ledger")
  fail_if (not (is_payout env a)) (validation "payout account must be cash or bank")
  payable ← ok_or (payable_account db ledger) (internal "no EMPLOYEE_PAYABLE account in ledger")
  t ← ok_or (latest_txn db ledger c.claim) (internal "no approved transaction found for claim")
  postings ←
      insert_postings db.trigger_enabled
        (leg second payable.id (net_payable db t.id)
          ∷ credit_leg second payout (net_payable db t.id)
          ∷ [])
        db.postings
  ok (
      log_event claim user "pay" (
        edit_claim (λ r. record r { status = "paid"; payout_account_id = some payout }) claim
          (record db {
            transactions =
                payout_row second ledger c.claim user today now
                ∷ payout_row first ledger c.claim user today now
                ∷ db.transactions;
            postings = postings;
          })))
