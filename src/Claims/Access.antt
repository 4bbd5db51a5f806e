-- ===== src/Claims/Access.antt =====
-- What the handlers of `src/handlers/reimbursement.rs` share: the access checks of
-- `src/handlers/ledgers.rs`, `load_claim`, `update_status` and the errors.
use openaccounting.Prelude.{ℕ, String, Bool, ◌&&◌, ◌||◌, List, ◌∷◌, ◌==◌, str_eq, if◌then◌else◌}
use openaccounting.Prelude.Tables.{find, update}
use openaccounting.Prelude.Results.{Result, ok, ◌>>=◌, ◌>>◌, fail_if, ok_or}
use openaccounting.Claims.Status.{
  ClaimStatus, draft, submitted, partially_approved, fully_approved, approved, rejected, paid,
  as_str, parse,
}
use openaccounting.Claims.Data.{Ledger, Member, Claim, Db}
use openaccounting.Claims.Policies.{Policy, Violation}

-- `AppError`; `refused` is a statement that the schema refused, `policy_violation` the validation error
-- whose message lists the violations.
pub data Error : Type 0 where
  not_found forbidden refused : Error
  validation conflict internal forbidden_msg : String → Error
  policy_violation : List (Policy × Violation) → Error

abbrev pub member_of : ℕ → ℕ → Member → Bool
member_of ledger user m = m.ledger_id == ledger && m.user_id == user

-- The ledger and the user's role in it.
unfoldable pub ensure_access : Db → ℕ → ℕ → Result Error (Ledger × String)
ensure_access db user ledger =
    ok_or (find (λ (l : Ledger). l.id == ledger) db.ledgers) not_found >>= λ l.
    if l.owner_id == user
    then ok (l, "owner")
    else (ok_or (find (member_of ledger user) db.members) not_found >>= λ m. ok (l, m.role))

unfoldable pub ensure_writer : Db → ℕ → ℕ → Result Error Ledger
unfolding ensure_access
ensure_writer db user ledger = ensure_access db user ledger >>= λ access.
    fail_if (str_eq access.1 "viewer" || str_eq access.1 "auditor") forbidden >> ok access.0

abbrev pub claim_by : ℕ → Claim → Bool
claim_by claim c = c.id == claim

-- A claim with its status read.
pub record Loaded : Type 0 where
  pub claim : Claim
  pub status : ClaimStatus

-- `id` is the primary key: the row WHERE id AND ledger_id is the row with the id, if the ledger is
-- its ledger.
unfoldable pub load_claim : Db → ℕ → ℕ → Result Error Loaded
load_claim db claim ledger = ok_or (find (claim_by claim) db.claims) not_found >>= λ c.
    if c.ledger_id == ledger
    then (ok_or (parse c.status) (Error.internal "bad status") >>= λ s.
        ok (record { claim = c; status = s }))
    else Result.err not_found

-- UPDATE reimbursement_claims SET … WHERE id
abbrev pub edit_claim : (Claim → Claim) → ℕ → Db → Db
edit_claim f claim db = record db { claims = update (claim_by claim) f db.claims }

abbrev pub log_event : ℕ → ℕ → String → Db → Db
log_event claim actor event db = record db {
  events = record { claim_id = claim; actor_id = actor; event_type = event } ∷ db.events;
}

unfoldable pub event_of : ClaimStatus → String
event_of submitted = "submit"
event_of partially_approved = "approve"
event_of fully_approved = "approve"
event_of approved = "approve"
event_of rejected = "reject"
event_of paid = "pay"
event_of draft = "create"

abbrev pub with_status : ClaimStatus → Claim → Claim
with_status s c = record c { status = as_str s }

unfoldable pub update_status : Db → ℕ → ℕ → ClaimStatus → Db
unfolding event_of
update_status db claim actor status =
    log_event claim actor (event_of status) (edit_claim (with_status status) claim db)
