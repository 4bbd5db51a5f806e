-- ===== src/Revaluation/Run.antt =====
-- `run_revaluation`, `base_currency_of` and `ensure_fx_accounts`. The statements are committed one
-- by one, so an error keeps what was written before it.
use openaccounting.Prelude.{
  ℕ, suc, String, Bool, true, false, not, ◌&&◌, ◌||◌, Option, none, some, List, [], ◌∷◌, ◌++◌, ◌==◌,
  str_eq, if◌then◌else◌,
}
use openaccounting.Prelude.Int.{ℤ, pos, abs, sub_ℕ, ◌-ℤ◌, ltb_ℤ, eqb_ℤ}
use openaccounting.Prelude.Tables.{find, select, exists}
use openaccounting.Prelude.Sums.{sum}
use openaccounting.Prelude.Results.{Result, ok, err}
use openaccounting.Prelude.Foreign.{Decimal, Env}
use openaccounting.Fx
use openaccounting.Fx.{FxError, derive_base_amount}
use openaccounting.Posting.Data.{
  debit, credit, Ledger, TxnLineInput, NewTransaction, CreatedTransaction, Error, Posting, Db,
}
use openaccounting.Posting.Checks.{ledger_by}
use openaccounting.Posting.Create.{Ids, create}

-- A row of `accounts`, as far as the revaluation reads it.
pub record FxAccount : Type 0 where
  pub id : ℕ
  pub ledger_id : ℕ
  pub name : String
  pub type_str : String
  pub currency : String
  pub is_archived : Bool

-- A row of `fx_revaluations`.
pub record FxRevaluation : Type 0 where
  pub ledger_id : ℕ
  pub account_id : ℕ
  pub period_month : ℕ
  pub transaction_id : ℕ
  pub fx_gain_loss : ℤ
  pub posted_by : ℕ

pub record Books : Type 0 where
  pub db : Db
  pub accounts : List FxAccount
  pub revaluations : List FxRevaluation

pub record RevaluationPosted : Type 0 where
  pub account_id : ℕ
  pub currency : String
  pub fx_gain_loss : ℤ
  pub transaction_id : ℕ

pub data RevaluationError : Type 0 where
  already_revalued : ℕ → RevaluationError
  fx : FxError → RevaluationError
  posting : Error → RevaluationError
  row_not_found unique_violation : RevaluationError

-- The request, and what other crates and the database give it: the first day of the month of the
-- date, the texts of the
-- description and the memos, and in round `i` the identifiers of the rows.
pub record Request : Type 0 where
  pub ledger_id : ℕ
  pub date : ℕ
  pub actor : ℕ
  pub period_month : ℕ
  pub describe : String → String
  pub memo : String → String
  pub ids : ℕ → Ids
  pub gain_id : ℕ → ℕ
  pub loss_id : ℕ → ℕ

pub record Candidate : Type 0 where
  pub account_id : ℕ
  pub currency : String
  pub foreign_balance : ℤ
  pub book_value : ℤ

abbrev pub is_foreign : ℕ → Posting → Bool
is_foreign account p =
    p.account_id == account && elim p.foreign_amount [ none ↦ false | some x ↦ true ]

abbrev pub foreign_of : Posting → ℕ
foreign_of p = elim p.foreign_amount [ none ↦ 0 | some x ↦ x ]

-- The sums over the postings of an account with a foreign amount, debits less credits.
abbrev pub signed_sum : (Posting → ℕ) → List Posting → ℤ
signed_sum f ps =
    sub_ℕ (sum (λ (p : Posting). elim p.direction [ debit ↦ f p | credit ↦ 0 ]) ps)
      (sum (λ (p : Posting). elim p.direction [ debit ↦ 0 | credit ↦ f p ]) ps)

abbrev pub candidate_of : List Posting → FxAccount → Candidate
candidate_of ps a = record {
  account_id = a.id;
  currency = a.currency;
  foreign_balance = signed_sum foreign_of (select (is_foreign a.id) ps);
  book_value = signed_sum (λ (p : Posting). p.amount) (select (is_foreign a.id) ps);
}

abbrev pub is_monetary : ℕ → String → FxAccount → Bool
is_monetary ledger base a =
    a.ledger_id == ledger
    && (str_eq a.type_str "ASSET" || str_eq a.type_str "LIABILITY")
    && not (str_eq a.currency base)
    && not a.is_archived

unfoldable pub candidate_rows : ℕ → String → List Posting → List FxAccount → List Candidate
candidate_rows ledger base ps [] = []
candidate_rows ledger base ps (a ∷ as') =
    if is_monetary ledger base a && not (eqb_ℤ (candidate_of ps a).foreign_balance (pos 0))
    then candidate_of ps a ∷ candidate_rows ledger base ps as'
    else candidate_rows ledger base ps as'

-- The first query; without the ledger its subquery is NULL and no row is left.
abbrev pub candidates_in : Option Ledger → ℕ → Books → List Candidate
candidates_in none ledger b = []
candidates_in (some l) ledger b = candidate_rows ledger l.base_currency b.db.postings b.accounts

unfoldable pub candidates : ℕ → Books → List Candidate
candidates ledger b = candidates_in (ledger_by ledger b.db) ledger b

abbrev pub is_done : ℕ → ℕ → ℕ → FxRevaluation → Bool
is_done ledger account month r =
    r.ledger_id == ledger && r.account_id == account && r.period_month == month

-- `ensure_one`: the identifier is that of the new row, if one is needed. The subtype and the code
-- of the new row are left out, as nothing here reads them.
unfoldable pub ensure_one : ℕ → ℕ → String → String → String → Books → ℕ × Books
ensure_one id ledger name ty base b =
    elim (find (λ (a : FxAccount). a.ledger_id == ledger && str_eq a.name name) b.accounts) [
      | some a ↦ (a.id, b)
      | none ↦ (
        id,
        record b {
          db = record b.db {
            accounts = b.db.accounts ++ record { id = id; ledger_id = ledger } ∷ [];
          };
          accounts =
              b.accounts
              ++ record {
                id = id;
                ledger_id = ledger;
                name = name;
                type_str = ty;
                currency = base;
                is_archived = false;
              }
                ∷ [];
        },
      )
    ]

unfoldable pub ensure_fx_accounts : Request → ℕ → String → Books → (ℕ × ℕ) × Books
ensure_fx_accounts r i base b =
    let (gain, b1) =
      ensure_one (r.gain_id i) r.ledger_id "FX Unrealized Gain/Loss" "INCOME" base b in
    let (loss, b2) = ensure_one (r.loss_id i) r.ledger_id "FX Unrealized Loss" "EXPENSE" base b1 in
    ((gain, loss), b2)

abbrev pub line : Request → String → ℕ → ℤ → TxnLineInput
line r currency account amount = record {
  account_id = account;
  signed_amount = amount;
  memo = some (r.memo currency);
  tax_rate_id = none;
  foreign = none;
  cost_center_id = none;
  project_id = none;
}

abbrev pub request_of : Request → Candidate → ℕ × ℕ → ℤ → NewTransaction
request_of r c pair diff = record {
  ledger_id = r.ledger_id;
  txn_date = r.date;
  description = r.describe c.currency;
  payee = none;
  reference = none;
  kind = none;
  created_by = r.actor;
  lines =
      if ltb_ℤ (pos 0) diff
      then line r c.currency c.account_id (pos (abs diff))
        ∷ line r c.currency pair.0 (pos 0 -ℤ pos (abs diff))
        ∷ []
      else line r c.currency pair.1 (pos (abs diff))
        ∷ line r c.currency c.account_id (pos 0 -ℤ pos (abs diff))
        ∷ [];
  reverses_id = none;
  number = none;
  tax_links = [];
}

abbrev pub Step : Type 0
Step = Result RevaluationError (Option RevaluationPosted) × Books

-- INSERT INTO fx_revaluations, UNIQUE (ledger_id, account_id, period_month)
abbrev pub recorded : Request → Candidate → ℤ → CreatedTransaction → Books → Step
recorded r c diff made b =
    if exists (is_done r.ledger_id c.account_id r.period_month) b.revaluations
    then (err unique_violation, b)
    else (
      ok (
          some (record {
            account_id = c.account_id;
            currency = c.currency;
            fx_gain_loss = diff;
            transaction_id = made.id;
          })),
      record b {
        revaluations =
            b.revaluations
            ++ record {
              ledger_id = r.ledger_id;
              account_id = c.account_id;
              period_month = r.period_month;
              transaction_id = made.id;
              fx_gain_loss = diff;
              posted_by = r.actor;
            }
              ∷ [];
      },
    )

abbrev pub posted : Request → Candidate → ℤ → Books → Result Error (CreatedTransaction × Db) → Step
posted r c diff b (err e) = (err (posting e), b)
posted r c diff b (ok (made, db)) = recorded r c diff made (record b { db = db })

abbrev pub post_difference : Env → Request → ℕ → Candidate → String → ℤ → Books → Step
post_difference env r i c base diff b =
    let (pair, b1) = ensure_fx_accounts r i base b in
    posted r c diff b1 (create env (r.ids i) (request_of r c pair diff) b1.db)

abbrev pub difference : Env → Candidate → Result FxError Decimal → Result FxError ℤ
difference env c (err e) = err e
difference env c (ok rate) = ok (derive_base_amount env c.foreign_balance rate -ℤ c.book_value)

abbrev pub with_difference :
    Env → Request → ℕ → Candidate → String → Books → Result FxError ℤ → Step
with_difference env r i c base b (err e) = (err (fx e), b)
with_difference env r i c base b (ok diff) =
    if eqb_ℤ diff (pos 0) then (ok none, b) else post_difference env r i c base diff b

abbrev pub with_ledger : Env → Request → ℕ → Candidate → Books → Option Ledger → Step
with_ledger env r i c b none = (err row_not_found, b)
with_ledger env r i c b (some l) =
    with_difference env r i c l.base_currency b (
      difference env c
        (Fx.lookup env b.db.fx_rates b.db.fx_rates c.currency l.base_currency r.date))

-- The body of the loop over the pending accounts.
unfoldable pub revalue_one : Env → Request → ℕ → Candidate → Books → Step
revalue_one env r i c b = with_ledger env r i c b (ledger_by r.ledger_id b.db)

abbrev pub Outcome : Type 0
Outcome = Result RevaluationError (List RevaluationPosted) × Books

abbrev pub add_posted : Option RevaluationPosted → Outcome → Outcome
add_posted none (r, b) = (r, b)
add_posted (some p) (ok ps, b) = (ok (p ∷ ps), b)
add_posted (some p) (err e, b) = (err e, b)

abbrev pub and_then : Step → (Books → Outcome) → Outcome
and_then (err e, b) rest = (err e, b)
and_then (ok o, b) rest = add_posted o (rest b)

unfoldable pub revalue_all : Env → Request → ℕ → List Candidate → Books → Outcome
revalue_all env r i [] b = (ok [], b)
revalue_all env r i (c ∷ cs) b =
    and_then (revalue_one env r i c b) (λ b'. revalue_all env r (suc i) cs b')

abbrev pub pending : Request → Books → List Candidate
pending r b =
    select
      (λ (c : Candidate).
        not (exists (is_done r.ledger_id c.account_id r.period_month) b.revaluations))
      (candidates r.ledger_id b)

abbrev pub begin : Env → Request → Books → List Candidate → Outcome
begin env r b [] = (err (already_revalued r.period_month), b)
begin env r b (c ∷ cs) = revalue_all env r 0 (c ∷ cs) b

unfoldable pub run_revaluation : Env → Request → Books → Outcome
run_revaluation env r b = begin env r b (pending r b)
