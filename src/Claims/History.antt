-- ===== src/Claims/History.antt =====
-- A history of calls of the handlers of claims refines the machine of the states of a claim.
use openaccounting.Prelude.{ℕ, true, ◌≡◌, some, inl, inr, ◌⊎◌, subst, sym}
use openaccounting.Claims.Status.{ClaimStatus, as_str, can_transition_to}
use openaccounting.Claims.Reachable.{Trace, here, step}
use openaccounting.Claims.Data.{Db, Env}
use openaccounting.Claims.StatusOf.{status_of}
use openaccounting.Claims.Moves.{Call, Call-Moves}

-- Calls of the handlers, one after the other.
pub data History (env : Env) (db : Db) : Db → Type 0 where
  start : History env db db
  call : {mid last : Db} → History env db mid → Call env mid last → History env db last

-- After any history of calls a claim has a status still, and the status is reached from its first
-- one by allowed transitions only.
pub History-Trace :
    {env : Env} {db last : Db} (history : History env db last) (claim : ℕ) (s : ClaimStatus)
    → status_of db claim ≡ some (as_str s)
    → (t : ClaimStatus) × (status_of last claim ≡ some (as_str t)) × Trace s t
History-Trace start claim s h = (s, h, here)
History-Trace {env} (call {mid} {last} before made) claim s h =
    let (t, now, trace) = History-Trace before claim s h in
    let (u, after, moved) = Call-Moves env mid last made claim t now in
    (u, after, extend trace moved)
  where
    extend : {t u : ClaimStatus} → Trace s t → (u ≡ t) ⊎ (can_transition_to t u ≡ true) → Trace s u
    extend trace (inl same) = subst (λ v. Trace s v) (sym same) trace
    extend {t} trace (inr allowed) = step {t = t} trace allowed
