-- ===== src/Claims/Moves.antt =====
-- The handlers of claims move a claim only along the transitions of `can_transition_to`.
use openaccounting.Prelude.{
  ℕ, true, false, ◌≡◌, refl, ap, sym, ◌∙◌, ◌⊎◌, inl, inr, Option, none, some, List, [], ◌∷◌, ◌==◌,
  arith, Bool-cases, subst,
}
use openaccounting.Prelude.Tables.{find, update, exists}
use openaccounting.Prelude.Results.{ok}
use openaccounting.Claims.Status.{
  ClaimStatus, submitted, partially_approved, fully_approved, rejected, paid, as_str, parse,
  can_transition_to,
}
use openaccounting.Claims.Reachable.{parse-as_str}
use openaccounting.Claims.Data.{Claim, Db, Env}
use openaccounting.Claims.Access.{claim_by, Loaded, edit_claim, with_status, update_status}
use openaccounting.Claims.Loading.{some_inj, IsLoaded, load_claim-IsLoaded}
use openaccounting.Claims.StatusOf.{status_of, Sets, Leaves, find-update, find-update_kept}
use openaccounting.Claims.Paid.{pay_done}
use openaccounting.Claims.Done.{
  create_done, add_line_done, submit_done, reject_done, approve_done, approve_start_done,
}
use openaccounting.Claims.Handlers.{
  NewClaimForm, NewLineForm, clashes, claim_row, create, add_line, submit, reject,
}
use openaccounting.Prelude.Int.{ℤ}
use openaccounting.Prelude.Texts.{Text, trim}
use openaccounting.Claims.Approve.{Answer, is_open, record_step, approve}
use openaccounting.Claims.Commit.{Outcome, approve_commit-Outcome}
use openaccounting.Claims.Fully.{post_claim-IsRest}
use openaccounting.Claims.Pay.{pay}

-- Every claim keeps its status or goes on by an allowed transition.
abbrev pub Moves : Db → Db → Type 0
Moves db db' =
    (k : ℕ) (s : ClaimStatus)
    → status_of db k ≡ some (as_str s)
    → (t : ClaimStatus) × (status_of db' k ≡ some (as_str t))
      × ((t ≡ s) ⊎ (can_transition_to s t ≡ true))

pub as_str_inj : (s t : ClaimStatus) → as_str s ≡ as_str t → s ≡ t
as_str_inj s t h = some_inj (sym (parse-as_str s) ∙ (ap parse h ∙ parse-as_str t))

Leaves-Moves : (db db' : Db) → Leaves db db' → Moves db db'
Leaves-Moves db db' leaves k s h = (s, leaves k ∙ h, inl refl)

Sets-Moves :
    (db db' : Db) (claim : ℕ) (s t : ClaimStatus)
    → Sets db db' claim (as_str t)
    → status_of db claim ≡ some (as_str s)
    → can_transition_to s t ≡ true
    → Moves db db'
Sets-Moves db db' claim s t sets before allowed k u h = elim (Bool-cases (claim == k)) [
  | inr other ↦ (u, sets k ∙ rw other h, inl refl)
  | inl this ↦
      let e : claim ≡ k = ground arith in
      let same = as_str_inj s u (some_inj (sym before ∙ (ap (status_of db) e ∙ h))) in
      (t, sets k ∙ rw (this, h) refl, inr (subst (λ v. can_transition_to v t ≡ true) same allowed))
]

-- `update_status` of a claim.
update_status-Sets :
    (db : Db) (claim actor : ℕ) (t : ClaimStatus)
    → Sets db (update_status db claim actor t) claim (as_str t)
unfolding update_status
update_status-Sets db claim actor t k =
    find-update (with_status t) (as_str t) claim k db.claims (λ c. refl) (λ c. refl)

pub claim_Sets :
    (db db' : Db) (f : Claim → Claim) (claim : ℕ) (t : ClaimStatus)
    → ((c : Claim) → (f c).id ≡ c.id)
    → ((c : Claim) → (f c).status ≡ as_str t)
    → db'.claims ≡ update (claim_by claim) f db.claims
    → Sets db db' claim (as_str t)
claim_Sets db db' f claim t same sets e k =
    rw e (find-update f (as_str t) claim k db.claims same sets)

-- A call of a handler that succeeds, by whichever user and with whichever fresh identifiers.
pub data Call (env : Env) (db db' : Db) : Type 0 where
  creates :
      (user ledger id : ℕ) (form : NewClaimForm)
      → create env db user ledger id form ≡ ok db'
      → Call env db db'
  adds_line :
      (user ledger claim : ℕ) (form : NewLineForm)
      → add_line db user ledger claim form ≡ ok db'
      → Call env db db'
  submits : (user ledger claim : ℕ) → submit env db user ledger claim ≡ ok db' → Call env db db'
  rejects :
      (user ledger claim : ℕ) (reason : Text)
      → reject db user ledger claim reason ≡ ok db'
      → Call env db db'
  approves :
      (user ledger claim : ℕ) (query : Option ℤ) (txn now : ℕ) (answer : Answer)
      → approve env db user ledger claim query txn now ≡ ok (db', answer)
      → Call env db db'
  pays :
      (user ledger claim payout first second today now : ℕ)
      → pay env db user ledger claim payout first second today now ≡ ok db'
      → Call env db db'

find_absent :
    (new : Claim) (cs : List Claim)
    → exists (clashes new) cs ≡ false
    → find (claim_by new.id) cs ≡ none
find_absent new [] h = refl
find_absent new (c ∷ cs) h = ground (arith, find_absent new cs)

nothing : {A : Type 0} {a : A} → none ≡ some a → ⊥
nothing h = cc

created-Moves :
    (db db' : Db) (new : Claim)
    → exists (clashes new) db.claims ≡ false
    → db'.claims ≡ new ∷ db.claims
    → Moves db db'
created-Moves db db' new absent e k s h = elim (Bool-cases (new.id == k)) [
  | inr other ↦ (s, rw (e, other) h, inl refl)
  | inl this ↦
      let same : new.id ≡ k = ground arith in
      let gone : status_of db new.id ≡ none = rw (find_absent new db.claims absent) refl in
      absurd (nothing (sym gone ∙ (ap (status_of db) same ∙ h)))
]

open_partly : (s : ClaimStatus) → is_open s ≡ true → can_transition_to s partially_approved ≡ true
unfolding can_transition_to
open_partly s h = ground arith

open_fully : (s : ClaimStatus) → is_open s ≡ true → can_transition_to s fully_approved ≡ true
unfolding can_transition_to
open_fully s h = ground arith

committed-Moves :
    (db db' : Db) (user ledger claim : ℕ) (c : Loaded) (level txn now : ℕ) (answer : Answer)
    → IsLoaded db claim c
    → is_open c.status ≡ true
    → Outcome db user ledger c level txn now db' answer
    → Moves db db'
unfolding as_str record_step
committed-Moves db db' user ledger claim c level txn now answer l o (inl (same, _, _)) =
    Leaves-Moves db db' (λ k. rw same refl)
committed-Moves db db' user ledger claim c level txn now answer l o (inr (_, _, inl (_, e))) =
    Sets-Moves db db' c.claim.id c.status partially_approved
      (claim_Sets db db' (with_status partially_approved) c.claim.id partially_approved (λ c. refl)
        (λ c. refl) (ap (λ (d : Db). d.claims) e))
      (ap (status_of db) l.id_is ∙ l.status_is) (open_partly c.status o)
committed-Moves db db' user ledger claim c level txn now answer l o (inr (_, _, inr (_, h))) =
    let rest = post_claim-IsRest (record_step db c.claim.id level user) c user ledger txn now h in
    Sets-Moves db db' c.claim.id c.status fully_approved
      (claim_Sets db db' (λ r. record r { status = "fully_approved"; approved_by = some user })
        c.claim.id fully_approved (λ c. refl) (λ c. refl) rest.claims)
      (ap (status_of db) l.id_is ∙ l.status_is) (open_fully c.status o)

-- Each call of a handler moves claims only along the allowed transitions.
pub Call-Moves : (env : Env) (db db' : Db) → Call env db db' → Moves db db'
unfolding as_str
Call-Moves env db db' (creates user ledger id form h) =
    let d = create_done env db user ledger id form h in
    created-Moves db db' (claim_row env id user ledger form) d.0 d.1
Call-Moves env db db' (adds_line user ledger claim form h) =
    let d = add_line_done db user ledger claim form h in
    Leaves-Moves db db' (λ k. rw d.written refl)
Call-Moves env db db' (submits user ledger claim h) =
    let d = submit_done env db user ledger claim h in
    let l = load_claim-IsLoaded db claim ledger d.1 in
    Sets-Moves db db' claim d.0.status submitted
      (λ k. rw d.5 (update_status-Sets db claim user submitted k)) l.status_is d.2
Call-Moves env db db' (rejects user ledger claim reason h) =
    let f = λ (r : Claim). record r { rejected_reason = some (trim reason) } in
    let mid = edit_claim f claim db in
    let d = reject_done db user ledger claim reason h in
    let l = load_claim-IsLoaded db claim ledger d.1 in
    let leaves : Leaves db mid =
      λ k. find-update_kept f claim k db.claims (λ c. refl) (λ c. refl) in
    let moves =
      Sets-Moves mid db' claim d.0.status rejected
        (λ k. rw d.3 (update_status-Sets mid claim user rejected k)) (leaves claim ∙ l.status_is)
        d.2 in
    λ k s h. moves k s (leaves k ∙ h)
Call-Moves env db db' (approves user ledger claim query txn now answer h) =
    let (c, level, started, committed) = approve_done env db user ledger claim query txn now h in
    let (loaded, is_open', _) = approve_start_done env db user ledger claim query started in
    let l = load_claim-IsLoaded db claim ledger loaded in
    committed-Moves db db' user ledger claim c level txn now answer l is_open'
      (approve_commit-Outcome db user ledger c level txn now committed)
Call-Moves env db db' (pays user ledger claim payout first second today now h) =
    let d = pay_done env db user ledger claim payout first second today now h in
    let l = load_claim-IsLoaded db claim ledger d.loaded in
    Sets-Moves db db' claim d.c.status paid
      (claim_Sets db db' (λ r. record r { status = "paid"; payout_account_id = some payout }) claim
        paid (λ c. refl) (λ c. refl) d.written)
      l.status_is d.allowed
