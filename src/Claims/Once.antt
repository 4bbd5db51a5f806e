-- ===== src/Claims/Once.antt =====
-- A claim of which every level is recorded is posted once, whatever copy of it a later or
-- overlapping call has read.
use openaccounting.Prelude.{
  ℕ, Bool, true, false, ◌≡◌, sym, inl, inr, List, [], ◌∷◌, ◌==◌, arith, Bool-cases, subst,
}
use openaccounting.Prelude.Results.{ok}
use openaccounting.Claims.Data.{Db}
use openaccounting.Claims.Routing.{contains, required_levels, recorded_levels}
use openaccounting.Claims.Access.{Loaded}
use openaccounting.Claims.Commit.{completes, Outcome, approve_commit-Outcome}
use openaccounting.Claims.Fully.{post_claim-IsRest}
use openaccounting.Claims.Approve.{
  Answer, redirect, level_already_approved, all_in, claim_total, record_step, approve_commit,
}

-- A level of a list that is recorded throughout is recorded.
all_in-contains :
    (required recorded : List ℕ) (level : ℕ)
    → all_in required recorded ≡ true
    → contains required level ≡ true
    → contains recorded level ≡ true
all_in-contains [] recorded level all h = cc
all_in-contains (l ∷ ls) recorded level all h = elim (Bool-cases (l == level)) [
  | inl this ↦ let e : l ≡ level = ground arith in rw (← e) (ground arith)
  | inr other ↦ all_in-contains ls recorded level (ground arith) (ground arith)
]

-- The levels that the claim requires are recorded.
abbrev pub AllRecorded : Db → ℕ → ℕ → Type 0
AllRecorded db ledger claim =
    all_in (required_levels db ledger (claim_total db claim)) (recorded_levels db claim) ≡ true

clash : {b : Bool} → b ≡ false → b ≡ true → ⊥
clash x y = cc

-- Once all levels are recorded no database transaction of `approve` changes anything.
settled :
    (db db' : Db) (user ledger : ℕ) (c : Loaded) (level txn now : ℕ) (answer : Answer)
    → AllRecorded db ledger c.claim.id
    → Outcome db user ledger c level txn now db' answer
    → (db' ≡ db) × (answer ≡ level_already_approved)
settled db db' user ledger c level txn now answer all (inl (same, again, _)) = (same, again)
settled db db' user ledger c level txn now answer all (inr (p, _, _)) =
    absurd (clash p.unrecorded (all_in-contains _ _ level all p.required))

recorded :
    (db mid : Db) (user ledger : ℕ) (c : Loaded) (level txn now : ℕ)
    → completes db user ledger c level txn now ≡ true
    → Outcome db user ledger c level txn now mid redirect
    → AllRecorded mid ledger c.claim.id
unfolding record_step required_levels recorded_levels claim_total
recorded db mid user ledger c level txn now all (inl (_, wrong, _)) = cc
recorded db mid user ledger c level txn now all (inr (_, _, inl (more, _))) =
    absurd (clash more all)
recorded db mid user ledger c level txn now all (inr (_, _, inr (_, h))) =
    let r = post_claim-IsRest (record_step db c.claim.id level user) c user ledger txn now h in
    rw (r.approval_policies_kept, r.lines_kept, r.steps_kept) all

-- Where a call has recorded the last level of a claim, every database transaction of a further call
-- that succeeds for the claim, by whichever user, for whichever level and with whichever earlier
-- copy of the claim, answers that the level is approved already and changes nothing.
pub approve_commit_again :
    (db mid last : Db) (user ledger : ℕ) (c : Loaded) (level txn now : ℕ) (user' : ℕ) (c' : Loaded)
    (level' txn' now' : ℕ) (answer : Answer)
    → approve_commit db user ledger c level txn now ≡ ok (mid, redirect)
    → completes db user ledger c level txn now ≡ true
    → c'.claim.id ≡ c.claim.id
    → approve_commit mid user' ledger c' level' txn' now' ≡ ok (last, answer)
    → (last ≡ mid) × (answer ≡ level_already_approved)
approve_commit_again db mid last user ledger c level txn now user' c' level' txn' now' answer h all
      same again =
    settled mid last user' ledger c' level' txn' now' answer
      (subst (AllRecorded mid ledger) (sym same) (
        recorded db mid user ledger c level txn now all
          (approve_commit-Outcome db user ledger c level txn now h)))
      (approve_commit-Outcome mid user' ledger c' level' txn' now' again)
