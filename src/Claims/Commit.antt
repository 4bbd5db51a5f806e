-- ===== src/Claims/Commit.antt =====
-- What a successful database transaction of `approve` has done.
use openaccounting.Prelude.{
  ℕ, ◌<◌, Bool, true, false, not, ◌&&◌, ◌≡◌, ◌≢◌, ◌⊎◌, inl, inr, ltb, ◌==◌, if◌then◌else◌, arith,
  Bool-cases,
}
use openaccounting.Prelude.Results.{Result, ok, err, ◌>>=◌, Result-cases}
use openaccounting.Claims.Status.{partially_approved}
use openaccounting.Claims.Data.{Claim, Db}
use openaccounting.Claims.Routing.{
  contains, required_levels, recorded_levels, eligible_approvers, approver_role_for_level,
  ledger_user_count,
}
use openaccounting.Claims.Access.{Error, Loaded, edit_claim, log_event, with_status}
use openaccounting.Claims.Approve.{
  Answer, level_already_approved, redirect, claim_total, all_in, record_step, post_claim,
  approve_commit,
}

-- The user may record this level of the claim now: it is required and not recorded, the user is
-- eligible for its role, and is not the author if the ledger has more than one user.
pub record IsPermitted (db : Db) (user ledger : ℕ) (c : Claim) (level : ℕ) : Type 0 where
  pub required : contains (required_levels db ledger (claim_total db c.id)) level ≡ true
  pub unrecorded : contains (recorded_levels db c.id) level ≡ false
  pub eligible :
      contains
        (eligible_approvers db ledger
          (approver_role_for_level db ledger level (claim_total db c.id)))
        user
      ≡ true
  pub another : 1 < ledger_user_count db ledger → c.employee_id ≢ user

refused : {A : Type 0} {e : Error} {r : A} → err e ≡ ok r → ⊥
refused x = cc

answered :
    {d d' : Db} {a a' : Answer}
    → ok (d, a) ≡ (let r : Result Error (Db × Answer) = ok (d', a') in r)
    → (d' ≡ d) × (a' ≡ a)
answered h = (cc, cc)

module _ (db : Db) (user ledger : ℕ) (c : Loaded) (level txn now : ℕ) where
  abbrev after_step : Db
  after_step = record_step db c.claim.id level user

  -- Every level that the claim requires is recorded with this one.
  abbrev pub completes : Bool
  completes =
      all_in (required_levels db ledger (claim_total db c.claim.id))
        (recorded_levels after_step c.claim.id)

  abbrev pub partly_approved : Db
  partly_approved =
      log_event c.claim.id user "approve"
        (edit_claim (with_status partially_approved) c.claim.id after_step)

  -- The three ways in which the transaction succeeds.
  abbrev pub Outcome : Db → Answer → Type 0
  Outcome db' answer =
      ((db' ≡ db)
        × (answer ≡ level_already_approved)
        × (contains (recorded_levels db c.claim.id) level ≡ true))
      ⊎ (IsPermitted db user ledger c.claim level
          × (answer ≡ redirect)
          × (((completes ≡ false) × (db' ≡ partly_approved))
              ⊎ ((completes ≡ true) × (post_claim after_step c user ledger txn now ≡ ok db'))))

  -- The last two tests, after the permission is given.
  abbrev finish : Result Error (Db × Answer)
  finish =
      if not completes
      then ok (partly_approved, redirect)
      else (post_claim after_step c user ledger txn now >>= λ posted. ok (posted, redirect))

  finish-Outcome :
      {db' : Db} {answer : Answer}
      → finish ≡ ok (db', answer)
      → (answer ≡ redirect)
        × (((completes ≡ false) × (db' ≡ partly_approved))
            ⊎ ((completes ≡ true) × (post_claim after_step c user ledger txn now ≡ ok db')))
  finish-Outcome h = elim (Bool-cases completes) [
    | inr more ↦ let a = answered (rw more at h) in (a.1, inl (more, a.0))
    | inl all ↦ elim (Result-cases (post_claim after_step c user ledger txn now)) [
      | inl (d, good) ↦ let a = answered (rw (all, good) at h) in (a.1, inr (all, rw a.0 good))
      | inr (e, bad) ↦ absurd (refused (rw (all, bad) at h))
    ]
  ]

  another_user :
      (ltb 1 (ledger_user_count db ledger) && c.claim.employee_id == user) ≡ false
      → 1 < ledger_user_count db ledger
      → c.claim.employee_id ≢ user
  another_user h many e = ground arith

  pub approve_commit-Outcome :
      {db' : Db} {answer : Answer}
      → approve_commit db user ledger c level txn now ≡ ok (db', answer)
      → Outcome db' answer
  unfolding approve_commit
  approve_commit-Outcome h =
      elim (Bool-cases (contains (required_levels db ledger (claim_total db c.claim.id)) level)) [
        | inr other ↦ absurd (refused (rw other at h))
        | inl required ↦ elim (Bool-cases (contains (recorded_levels db c.claim.id) level)) [
          | inl again ↦ let a = answered (rw (required, again) at h) in inl (a.0, a.1, again)
          | inr new ↦
              elim (Bool-cases (
                contains
                  (eligible_approvers db ledger
                    (approver_role_for_level db ledger level (claim_total db c.claim.id)))
                  user)) [
                    | inr stranger ↦ absurd (refused (rw (required, new, stranger) at h))
                    | inl eligible ↦
                        elim (Bool-cases
                          (ltb 1 (ledger_user_count db ledger) && c.claim.employee_id == user)) [
                            | inl own ↦ absurd (refused (rw (required, new, eligible, own) at h))
                            | inr other ↦
                                let f = finish-Outcome (rw (required, new, eligible, other) at h) in
                                inr (
                                  record {
                                    required = required;
                                    unrecorded = new;
                                    eligible = eligible;
                                    another = another_user other;
                                  },
                                  f.0,
                                  f.1,
                                )
                          ]
                  ]
        ]
      ]
