-- ===== src/Claims/Loading.antt =====
-- What `load_claim` finds.
use openaccounting.Prelude.{
  ℕ, String, ◌≡◌, ap, inl, inr, some, ◌==◌, eq_iff, arith, Bool-cases, Option-cases,
}
use openaccounting.Prelude.Tables.{find, find-true}
use openaccounting.Prelude.Results.{Result, ok, err}
use openaccounting.Claims.Status.{ClaimStatus, as_str, parse}
use openaccounting.Claims.Data.{Db}
use openaccounting.Claims.Access.{Error, claim_by, Loaded, load_claim}
use openaccounting.Claims.StatusOf.{status_of}

pub some_inj : {A : Type 0} {a b : A} → some a ≡ some b → a ≡ b
some_inj h = cc

-- A name that is read as a state is the name of the state.
as_str-parse : (x : String) (s : ClaimStatus) → parse x ≡ some s → x ≡ as_str s
unfolding parse as_str
as_str-parse x s h = ground (
  arith,
  eq_iff x "draft",
  eq_iff x "submitted",
  eq_iff x "partially_approved",
  eq_iff x "fully_approved",
  eq_iff x "approved",
  eq_iff x "rejected",
  eq_iff x "paid",
)

-- What `load_claim` has found.
pub record IsLoaded (db : Db) (claim : ℕ) (c : Loaded) : Type 0 where
  pub row : find (claim_by claim) db.claims ≡ some c.claim
  pub id_is : c.claim.id ≡ claim
  pub status_is : status_of db claim ≡ some (as_str c.status)

refused : {A : Type 0} {e : Error} {r : A} → err e ≡ ok r → ⊥
refused x = cc

loaded_inj : {a b : Loaded} → ok a ≡ (let r : Result Error Loaded = ok b in r) → b ≡ a
loaded_inj h = cc

pub load_claim-IsLoaded :
    (db : Db) (claim ledger : ℕ) {c : Loaded}
    → load_claim db claim ledger ≡ ok c
    → IsLoaded db claim c
unfolding load_claim
load_claim-IsLoaded db claim ledger {c} h = elim (Option-cases (find (claim_by claim) db.claims)) [
  | inl missing ↦ absurd (refused (rw missing at h))
  | inr (r, row) ↦ elim (Bool-cases (r.ledger_id == ledger)) [
    | inr other ↦ absurd (refused (rw (row, other) at h))
    | inl this ↦ elim (Option-cases (parse r.status)) [
      | inl bad ↦ absurd (refused (rw (row, this, bad) at h))
      | inr (s, good) ↦
          let e = loaded_inj (rw (row, this, good) at h) in
          let id = find-true (claim_by claim) db.claims row in
          rw e (record {
            row = row;
            id_is = ground arith;
            status_is = rw row (ap some (as_str-parse r.status s good));
          })
    ]
  ]
]
