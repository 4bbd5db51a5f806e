-- ===== src/Claims/Approval.antt =====
-- What a call of `approve` does: who may record a level, and what is posted.
use openaccounting.Prelude.{
  ℕ, String, true, ◌≡◌, ◌≢◌, refl, sym, ap, ◌∙◌, ◌⊎◌, inl, inr, Option, some, ◌∷◌, subst, ==_refl,
  false, Bool-cases,
}
use openaccounting.Prelude.Int.{ℤ}
use openaccounting.Prelude.Results.{ok}
use openaccounting.Claims.Status.{ClaimStatus, partially_approved, fully_approved, as_str}
use openaccounting.Claims.Data.{ApprovalStep, Db, Env}
use openaccounting.Claims.Access.{Loaded, load_claim, with_status}
use openaccounting.Claims.StatusOf.{status_of, Sets}
use openaccounting.Claims.Loading.{some_inj, load_claim-IsLoaded}
use openaccounting.Claims.Pairs.{IsFresh}
use openaccounting.Claims.Unchecked.{IsUnchecked, post_claim-IsUnchecked}
use openaccounting.Claims.Done.{IsAllowed, approve_done, approve_start_done}
use openaccounting.Claims.Commit.{IsPermitted, Outcome, approve_commit-Outcome}
use openaccounting.Claims.Fully.{IsPosted, post_claim-IsPosted, post_claim-IsRest}
use openaccounting.Claims.Moves.{as_str_inj, claim_Sets}
use openaccounting.Claims.Approve.{
  Answer, redirect, is_open, claim_total, payable_account, advance_account, record_step, post_claim,
  approve,
}

abbrev pub step_row : ℕ → ℕ → ℕ → ApprovalStep
step_row claim level user = record { claim_id = claim; level = level; approver_id = user }

-- A redirected approval has recorded a level by the user.
pub record IsRecorded (env : Env) (db db' : Db) (user ledger claim : ℕ) : Type 0 where
  pub c : Loaded
  pub level : ℕ
  pub loaded : load_claim db claim ledger ≡ ok c
  pub is_open : is_open c.status ≡ true
  pub allowed : IsAllowed env db claim
  pub permitted : IsPermitted db user ledger c.claim level
  pub recorded : db'.steps ≡ step_row claim level user ∷ db.steps

-- An approval that is answered by the redirect has recorded one level, of a claim that is submitted
-- or partially approved and violates no hard policy: the level is required and was not recorded,
-- the user is eligible for its role, and is not the author if the ledger has more than one user.
pub approve-IsRecorded :
    (env : Env) (db : Db) (user ledger claim : ℕ) (query : Option ℤ) (txn now : ℕ) {db' : Db}
    → approve env db user ledger claim query txn now ≡ ok (db', redirect)
    → IsRecorded env db db' user ledger claim
unfolding record_step
approve-IsRecorded env db user ledger claim query txn now {db'} h =
    let (c, level, started, committed) = approve_done env db user ledger claim query txn now h in
    let (loaded, o, allowed) = approve_start_done env db user ledger claim query started in
    let id = (load_claim-IsLoaded db claim ledger loaded).id_is in
    let two =
      recorded_by c level (approve_commit-Outcome db user ledger c level txn now committed) in
    record {
      c = c;
      level = level;
      loaded = loaded;
      is_open = o;
      allowed = allowed;
      permitted = two.0;
      recorded = two.1 ∙ ap (λ i. step_row i level user ∷ db.steps) id;
    }
  where
    recorded_by :
        (c : Loaded) (level : ℕ)
        → Outcome db user ledger c level txn now db' redirect
        → IsPermitted db user ledger c.claim level
          × (db'.steps ≡ step_row c.claim.id level user ∷ db.steps)
    recorded_by c level (inl (_, wrong, _)) = cc
    recorded_by c level (inr (p, _, inl (_, e))) = (p, ap (λ (d : Db). d.steps) e)
    recorded_by c level (inr (p, _, inr (_, h))) = (
      p,
      (post_claim-IsRest (record_step db c.claim.id level user) c user ledger txn now h).steps_kept,
    )

-- What the last approval of a claim has posted: while the trigger on postings is enabled, one debit
-- and one credit of the whole claim, and otherwise whatever the legs add up to.
abbrev pub PostsClaim : Db → Db → ℕ → ℕ → ℕ → Type 0
PostsClaim db db' claim ledger txn =
    ((db.trigger_enabled ≡ true) × IsPosted db db' claim ledger txn)
    ⊎ ((db.trigger_enabled ≡ false) × IsUnchecked db db' claim ledger txn)

-- What an approval has posted: nothing, and the claim is not fully approved, or the whole claim.
abbrev pub Posts : Db → Db → ℕ → ℕ → ℕ → Type 0
Posts db db' claim ledger txn =
    ((db'.postings ≡ db.postings) × (status_of db' claim ≢ some "fully_approved"))
    ⊎ (PostsClaim db db' claim ledger txn × (status_of db' claim ≡ some "fully_approved"))

not_fully : (s : ClaimStatus) → is_open s ≡ true → some (as_str s) ≢ some "fully_approved"
unfolding as_str
not_fully s o h =
    let e : s ≡ fully_approved = as_str_inj s fully_approved (some_inj h) in closed (rw e at o)
  where
    closed : is_open fully_approved ≡ true → ⊥
    closed x = cc

is_set :
    (db db' : Db) (claim : ℕ) (s s' : String)
    → Sets db db' claim s'
    → status_of db claim ≡ some s
    → status_of db' claim ≡ some s'
is_set db db' claim s s' sets h = sets claim ∙ rw (==_refl claim, h) refl

-- Recording the step changes nothing that the posting reads.
post_claim-PostsClaim :
    (db db' : Db) (user ledger : ℕ) (c : Loaded) (level txn now : ℕ)
    → IsFresh txn db.postings
    → post_claim (record_step db c.claim.id level user) c user ledger txn now ≡ ok db'
    → PostsClaim db db' c.claim.id ledger txn
unfolding record_step claim_total payable_account advance_account
post_claim-PostsClaim db db' user ledger c level txn now fresh h =
    let after = record_step db c.claim.id level user in
    elim (Bool-cases db.trigger_enabled) [
      | inl on ↦
          let p = post_claim-IsPosted after c user ledger txn now fresh on h in
          inl (
            on,
            record {
              account = p.account;
              payable = p.payable;
              is_payable = p.is_payable;
              untaxed = p.untaxed;
              no_advance = p.no_advance;
              positive = p.positive;
              postings = p.postings;
            },
          )
      | inr off ↦
          let p = post_claim-IsUnchecked after c user ledger txn now off fresh h in
          inr (
            off,
            record {
              payable = p.payable;
              is_payable = p.is_payable;
              debits = p.debits;
              credits = p.credits;
            },
          )
    ]

committed-Posts :
    (db db' : Db) (user ledger : ℕ) (c : Loaded) (level txn now : ℕ) (answer : Answer)
    → IsFresh txn db.postings
    → status_of db c.claim.id ≡ some (as_str c.status)
    → is_open c.status ≡ true
    → Outcome db user ledger c level txn now db' answer
    → Posts db db' c.claim.id ledger txn
unfolding record_step as_str
committed-Posts db db' user ledger c level txn now answer fresh l o (inl (same, _, _)) = inl (
  ap (λ (d : Db). d.postings) same,
  λ h. not_fully c.status o (sym l ∙ (ap (λ (d : Db). status_of d c.claim.id) (sym same) ∙ h)),
)
committed-Posts db db' user ledger c level txn now answer fresh l o (inr (_, _, inl (_, e))) =
    let set =
      is_set db db' c.claim.id (as_str c.status) (as_str partially_approved)
        (claim_Sets db db' (with_status partially_approved) c.claim.id partially_approved
          (λ c. refl) (λ c. refl) (ap (λ (d : Db). d.claims) e))
        l in
    inl (ap (λ (d : Db). d.postings) e, λ h. not_fully partially_approved refl (sym set ∙ h))
committed-Posts db db' user ledger c level txn now answer fresh l o (inr (_, _, inr (_, h))) =
    let after = record_step db c.claim.id level user in
    let rest = post_claim-IsRest after c user ledger txn now h in
    inr (
      post_claim-PostsClaim db db' user ledger c level txn now fresh h,
      is_set db db' c.claim.id (as_str c.status) (as_str fully_approved)
          (claim_Sets db db' (λ r. record r { status = "fully_approved"; approved_by = some user })
            c.claim.id fully_approved (λ c. refl) (λ c. refl) rest.claims)
          l,
    )

-- A successful approval with a fresh transaction identifier either posts nothing, and the claim is
-- not fully approved; or the claim is then fully approved and posted. While the trigger on postings
-- is enabled, the claim then holds no tax and no advance, has a positive total, and one debit of
-- one account and one credit of the account that is payable are posted for it, each of its total.
-- While the trigger is disabled, the debits of the transaction add up to the expenses and the tax
-- less the advances, and its credits to the expenses less twice the advances, and the advances
-- where the ledger has an account for them.
pub approve-Posts :
    (env : Env) (db : Db) (user ledger claim : ℕ) (query : Option ℤ) (txn now : ℕ) {db' : Db}
    {answer : Answer}
    → IsFresh txn db.postings
    → approve env db user ledger claim query txn now ≡ ok (db', answer)
    → Posts db db' claim ledger txn
approve-Posts env db user ledger claim query txn now {db'} {answer} fresh h =
    let (c, level, started, committed) = approve_done env db user ledger claim query txn now h in
    let (loaded, o, _) = approve_start_done env db user ledger claim query started in
    let l = load_claim-IsLoaded db claim ledger loaded in
    subst (λ i. Posts db db' i ledger txn) l.id_is
      (committed-Posts db db' user ledger c level txn now answer fresh
        (ap (status_of db) l.id_is ∙ l.status_is) o
        (approve_commit-Outcome db user ledger c level txn now committed))
