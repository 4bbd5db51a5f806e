-- ===== src/Jobs/Tests.antt =====
-- The theorems about the queue at concrete jobs.
use openaccounting.Prelude.{
  ℕ, ◌≤◌, String, true, false, none, some, List, [], ◌∷◌, ◌++◌, ◌≡◌, refl, arith, All, length, ◌==◌,
}
use openaccounting.Prelude.Tables.{find}
use openaccounting.Prelude.Results.{Result, err}
use openaccounting.Jobs.Queue.{
  Job, JobError, failed, pending, dead, enqueue, is_due, is_in, claim_due, dispatch, execute,
}
use openaccounting.Jobs.Outcome.{Ends, execute-Ends}
use openaccounting.Jobs.Retries.{runs, runs_dead}
use openaccounting.Jobs.Claims.{claim_due-once}

-- Every handler fails.
abbrev refusing : String → List ℕ → Result JobError (Unit {0}) × List Job
refusing kind payload = (err (failed "refused"), [])

abbrev jobs : List Job
jobs =
    enqueue 2 "weekly_digest" [] none none 1050 (enqueue 1 "email_send" [] (some 900) none 1000 [])

abbrev mail : Job
mail = record {
  id = 1;
  kind = "email_send";
  payload = [];
  run_at = 900;
  status = pending;
  attempts = 0;
  max_attempts = 5;
  last_error = none;
  created_by = none;
  updated_at = 1000;
}

execute-Ends_example :
    ((k : Job) × (find (λ (k : Job). k.id == 1) (execute refusing 2000 mail jobs) ≡ some k)
      × Ends 2000 mail (dispatch refusing mail).0 mail k)
    × (find (λ (k : Job). k.id == 2) (execute refusing 2000 mail jobs)
        ≡ find (λ (k : Job). k.id == 2) (jobs ++ []))
unfolding enqueue dispatch
execute-Ends_example = execute-Ends refusing 2000 2 mail mail jobs refl (omega arith)

-- Two runs leave the job pending with two attempts, and five leave it dead.
runs_dead_example :
    ((k : Job) × (runs refusing 2000 2 (mail ∷ []) ≡ k ∷ [])
      × (k.status ≡ pending)
      × (k.attempts ≡ 2))
    × ((k : Job) × (runs refusing 2000 5 (mail ∷ []) ≡ k ∷ [])
        × (k.status ≡ dead)
        × (k.attempts ≡ 5)
        × (k.last_error ≡ some (failed "refused")))
runs_dead_example =
    runs_dead refusing 2000 4 2 (failed "refused") mail
      (record { waiting = refl; is_due = omega arith; known = refl }) refl (omega arith)
      (omega arith)

claim_due-once_example :
    All (λ j. is_due 1100 j ≡ true) (claim_due 1100 1 jobs).0
    × (length (claim_due 1100 1 jobs).0 ≤ 1)
    × All
        (λ j. is_in (claim_due 1100 1 jobs).0 j ≡ false)
        (claim_due 1200 9 (claim_due 1100 1 jobs).1).0
claim_due-once_example = claim_due-once 1100 1 1200 9 jobs
