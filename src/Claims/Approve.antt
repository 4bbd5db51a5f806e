-- ===== src/Claims/Approve.antt =====
-- `approve` (`src/handlers/reimbursement.rs`): one level of a claim's approval, and the posting of
-- the claim with the last level. The handler reads the claim, then opens a database transaction;
-- the two parts are two functions. The identifier and the time of a new transaction are arguments.
-- UNIQUE (claim_id, level, approver_id) is never met, since no step of the level is there.
use openaccounting.Prelude.{
  ℕ, String, Bool, true, false, ◌&&◌, not, Option, none, some, List, [], ◌∷◌, ◌++◌, map, ltb, ◌==◌,
  ◌+◌, min, str_eq, if◌then◌else◌,
}
use openaccounting.Prelude.Int.{ℤ, pos, pos_part, sub_ℕ, ◌-ℤ◌, ltb_ℤ}
use openaccounting.Prelude.Tables.{find, select}
use openaccounting.Prelude.Sums.{sum, sum_ℤ}
use openaccounting.Prelude.Results.{Result, ok, ◌>>=◌, ◌>>◌, fail_if, ok_or}
use openaccounting.Posting.Data.{debit, credit}
use openaccounting.Claims.Status.{
  ClaimStatus, draft, submitted, partially_approved, fully_approved, approved, rejected, paid,
}
use openaccounting.Claims.Data.{Account, Line, Txn, Posting, Db, Env}
use openaccounting.Claims.Routing.{
  contains, dedup, sort_unstable, required_levels, recorded_levels, eligible_approvers,
  approver_role_for_level, ledger_user_count,
}
use openaccounting.Claims.Access.{
  Error, validation, conflict, internal, forbidden_msg, ensure_access, Loaded, load_claim,
  edit_claim, log_event, with_status,
}
use openaccounting.Claims.Check.{
  lines_of, collect_policy_violations, hard_violation_message, blocked_by,
}
use openaccounting.Claims.Trigger.{insert_postings}

abbrev pub is_approved : ClaimStatus → Bool
is_approved fully_approved = true
is_approved approved = true
is_approved draft = false
is_approved submitted = false
is_approved partially_approved = false
is_approved rejected = false
is_approved paid = false

abbrev pub is_open : ClaimStatus → Bool
is_open submitted = true
is_open partially_approved = true
is_open draft = false
is_open fully_approved = false
is_open approved = false
is_open rejected = false
is_open paid = false

abbrev pub or_first : Option ℤ → ℤ
or_first none = pos 1
or_first (some level) = level

-- The part before the database transaction: the claim as read, and the level.
unfoldable pub approve_start : Env → Db → ℕ → ℕ → ℕ → Option ℤ → Result Error (Loaded × ℕ)
approve_start env db user ledger claim query = do
  _ ← ensure_access db user ledger
  c ← load_claim db claim ledger
  fail_if (is_approved c.status) (conflict "claim is already approved")
  fail_if (not (is_open c.status)) (validation "claim cannot be approved")
  violations ← collect_policy_violations env db claim
  blocked_by (hard_violation_message violations)
  fail_if (ltb_ℤ (or_first query) (pos 1)) (validation "level must be >= 1")
  ok (c, pos_part (or_first query))

-- SUM(amount + tax_amount)
unfoldable pub claim_total : Db → ℕ → ℕ
claim_total db claim = sum (λ (l : Line). l.amount + l.tax_amount) (lines_of db claim)

unfoldable pub advance_total : List Line → ℕ
advance_total lines = sum (λ (l : Line). l.advance_amount) lines

-- A row of the query grouped by account: SUM(amount - advance_amount) and SUM(tax_amount).
pub record Group : Type 0 where
  pub gl_account_id : ℕ
  pub net : ℤ
  pub tax : ℕ

abbrev pub booked_on : ℕ → Line → Bool
booked_on account l = l.gl_account_id == account

unfoldable pub group_of : List Line → ℕ → Group
group_of lines account = record {
  gl_account_id = account;
  net = sum_ℤ (λ (l : Line). sub_ℕ l.amount l.advance_amount) (select (booked_on account) lines);
  tax = sum (λ (l : Line). l.tax_amount) (select (booked_on account) lines);
}

-- GROUP BY gl_account_id; the database may give the groups in another order.
unfoldable pub grouped : List Line → List Group
unfolding group_of
grouped lines =
    map (group_of lines) (dedup (sort_unstable (map (λ (l : Line). l.gl_account_id) lines)))

abbrev pub is_subtype : ℕ → String → String → Account → Bool
is_subtype ledger kind subtype a =
    (a.ledger_id == ledger && str_eq a.kind kind) && str_eq a.subtype subtype

unfoldable pub payable_account : Db → ℕ → Option Account
payable_account db ledger = find (is_subtype ledger "LIABILITY" "EMPLOYEE_PAYABLE") db.accounts

unfoldable pub advance_account : Db → ℕ → Option Account
advance_account db ledger = find (is_subtype ledger "ASSET" "EMPLOYEE_ADVANCE") db.accounts

abbrev pub leg : ℕ → ℕ → ℤ → Posting
leg txn account amount = record {
  transaction_id = txn;
  account_id = account;
  amount = amount;
  direction = debit;
}

abbrev pub credit_leg : ℕ → ℕ → ℤ → Posting
credit_leg txn account amount = record {
  transaction_id = txn;
  account_id = account;
  amount = amount;
  direction = credit;
}

-- The debits of the loop over the groups, in order.
unfoldable pub group_legs : ℕ → List Group → List Posting
group_legs txn [] = []
group_legs txn (g ∷ gs) =
    leg txn g.gl_account_id g.net
    ∷ ((if ltb 0 g.tax then leg txn g.gl_account_id (pos g.tax) ∷ [] else []) ++ group_legs txn gs)

-- The credit of the advance, if there is an advance and an account for it.
unfoldable pub advance_legs : ℕ → ℕ → Option Account → List Posting
advance_legs txn advance none = []
advance_legs txn advance (some a) =
    if ltb 0 advance then credit_leg txn a.id (pos advance) ∷ [] else []

abbrev pub net_expense : List Group → ℤ
net_expense groups = sum_ℤ (λ (g : Group). g.net) groups

-- The INSERTs of the postings of a claim, in order.
unfoldable pub claim_legs : ℕ → Db → ℕ → ℕ → List Line → List Posting
unfolding advance_total grouped group_legs advance_legs advance_account
claim_legs txn db ledger payable lines =
    group_legs txn (grouped lines)
    ++ (advance_legs txn (advance_total lines) (advance_account db ledger)
        ++ (credit_leg txn payable (net_expense (grouped lines) -ℤ pos (advance_total lines)) ∷ []))

-- MIN(txn_date)
abbrev pub earliest : Line → List Line → ℕ
earliest l [] = l.txn_date
earliest l (m ∷ ms) = min l.txn_date (earliest m ms)

abbrev pub all_in : List ℕ → List ℕ → Bool
all_in [] recorded = true
all_in (l ∷ ls) recorded = contains recorded l && all_in ls recorded

-- The posting of a claim of which the last level is recorded.
unfoldable pub post_claim : Db → Loaded → ℕ → ℕ → ℕ → ℕ → Result Error Db
unfolding payable_account claim_legs
post_claim db c user ledger txn now = do
  payable ←
      ok_or (payable_account db ledger)
        (internal "no EMPLOYEE_PAYABLE account in ledger; create one before approving")
  elim (lines_of db c.claim.id) [
    | [] ↦ Result.err (validation "no lines on claim to approve")
    | l ∷ ls ↦
        insert_postings db.trigger_enabled (claim_legs txn db ledger payable.id (l ∷ ls))
          db.postings
        >>= λ postings.
            let row : Txn = record {
              id = txn;
              ledger_id = ledger;
              txn_date = earliest l ls;
              payee = c.claim.employee_name;
              reference = c.claim.short_id;
              currency = c.claim.currency;
              created_by = user;
              created_at = now;
            } in
            ok (
              log_event c.claim.id user "approve" (
                edit_claim (λ r. record r { status = "fully_approved"; approved_by = some user })
                  c.claim.id
                  (record db { transactions = row ∷ db.transactions; postings = postings })))
  ]

-- What the caller is answered.
pub data Answer : Type 0 where
  level_already_approved redirect : Answer

unfoldable pub record_step : Db → ℕ → ℕ → ℕ → Db
record_step db claim level user = record db {
  steps = record { claim_id = claim; level = level; approver_id = user } ∷ db.steps;
}

-- The database transaction.
unfoldable pub approve_commit : Db → ℕ → ℕ → Loaded → ℕ → ℕ → ℕ → Result Error (Db × Answer)
unfolding claim_total post_claim record_step
approve_commit db user ledger c level txn now =
    let claim = c.claim.id in
    let total = claim_total db claim in
    let required = required_levels db ledger total in
    let role = approver_role_for_level db ledger level total in
    let db' = record_step db claim level user in
    if not (contains required level)
    then Result.err (validation "level is not required for this claim")
    else if contains (recorded_levels db claim) level
    then ok (db, level_already_approved)
    else (fail_if (not (contains (eligible_approvers db ledger role) user)) Error.forbidden
        >> (fail_if (ltb 1 (ledger_user_count db ledger) && c.claim.employee_id == user)
              (forbidden_msg "Authors cannot approve their own claims.")
            >> (if not (all_in required (recorded_levels db' claim))
                then ok (
                  log_event claim user "approve"
                      (edit_claim (with_status partially_approved) claim db'),
                  redirect,
                )
                else (post_claim db' c user ledger txn now >>= λ posted. ok (posted, redirect)))))

unfoldable pub approve : Env → Db → ℕ → ℕ → ℕ → Option ℤ → ℕ → ℕ → Result Error (Db × Answer)
unfolding approve_start approve_commit
approve env db user ledger claim query txn now =
    approve_start env db user ledger claim query >>= λ start.
    approve_commit db user ledger start.0 start.1 txn now
