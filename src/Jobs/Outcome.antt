-- ===== src/Jobs/Outcome.antt =====
-- What an execution leaves of its job.
use openaccounting.Prelude.{
  ℕ, zero, suc, ◌+◌, String, Bool, some, List, [], ◌∷◌, ◌++◌, ◌≡◌, ◌≢◌, ◌≤◌, ◌<◌, ◌⊎◌, inl, inr,
  refl, arith, ◌==◌, if◌then◌else◌, leb, Bool-cases,
}
use openaccounting.Prelude.Tables.{find, update}
use openaccounting.Prelude.Results.{Result, ok, err}
use openaccounting.Jobs.Queue.{
  Job, JobError, Status, pending, dead, delay, finalized, dispatch, execute,
}

find-append_old :
    (p : Job → Bool) (rows more : List Job) (j : Job)
    → find p rows ≡ some j
    → find p (rows ++ more) ≡ some j
find-append_old p [] more j h = cc
find-append_old p (k ∷ rows) more j h = ground (arith, find-append_old p rows more j)

find-update_id :
    (id : ℕ) (f : Job → Job) (rows : List Job) (j : Job)
    → ((k : Job) → (f k).id ≡ k.id)
    → find (λ (k : Job). k.id == id) rows ≡ some j
    → find (λ (k : Job). k.id == id) (update (λ (k : Job). k.id == id) f rows) ≡ some (f j)
find-update_id id f [] j keeps h = cc
find-update_id id f (k ∷ rows) j keeps h = ground (arith, find-update_id id f rows j keeps, keeps k)

-- The wait in seconds after a failed attempt: half a minute, two minutes, ten minutes, an hour, and
-- six hours after the fifth and every later one.
abbrev pub wait_after : ℕ → ℕ
wait_after attempts =
    if attempts == 1
    then 30
    else if attempts == 2
    then 120
    else if attempts == 3
    then 600
    else if attempts == 4
    then 3600
    else 21600

delay-wait_after : (n : ℕ) → delay (n + 1) ≡ wait_after (n + 1)
unfolding delay
delay-wait_after zero = refl
delay-wait_after (suc zero) = refl
delay-wait_after (suc (suc zero)) = refl
delay-wait_after (suc (suc (suc zero))) = refl
delay-wait_after (suc (suc (suc (suc zero)))) = refl
delay-wait_after (suc (suc (suc (suc (suc n))))) = ground arith

finalized-id :
    (now tried most : ℕ) (r : Result JobError (Unit {0})) (j : Job)
    → (finalized now tried most r j).id ≡ j.id
unfolding finalized
finalized-id now tried most (ok tt) j = refl
finalized-id now tried most (err e) j = ground arith

-- The job is done, and keeps its attempts.
pub record IsDone (now : ℕ) (j k : Job) : Type 0 where
  pub done : k.status ≡ Status.done
  pub same_attempts : k.attempts ≡ j.attempts
  pub same_error : k.last_error ≡ j.last_error

-- One attempt more has failed.
pub record IsFailed (tried : ℕ) (e : JobError) (k : Job) : Type 0 where
  pub one_more : k.attempts ≡ tried + 1
  pub reason : k.last_error ≡ some e

-- What a run of the job leaves in its row.
abbrev pub Ends : ℕ → Job → Result JobError (Unit {0}) → Job → Job → Type 0
Ends now job (ok _) j k = IsDone now j k
Ends now job (err e) j k =
    IsFailed job.attempts e k
    × (((k.status ≡ dead) × (job.max_attempts ≤ job.attempts + 1))
        ⊎ ((k.status ≡ pending)
            × (job.attempts + 1 < job.max_attempts)
            × (k.run_at ≡ now + wait_after (job.attempts + 1))))

finalized-Ends :
    (now : ℕ) (job j : Job) (r : Result JobError (Unit {0}))
    → Ends now job r j (finalized now job.attempts job.max_attempts r j)
unfolding finalized
finalized-Ends now job j (ok tt) = record { done = refl; same_attempts = refl; same_error = refl }
finalized-Ends now job j (err e) = elim (Bool-cases (leb job.max_attempts (job.attempts + 1))) [
  | inl last ↦ rw last (record { one_more = refl; reason = refl }, inl (refl, ground arith))
  | inr more ↦ rw more (
    record { one_more = refl; reason = refl },
    inr (refl, ground arith, ground (arith, delay-wait_after job.attempts)),
  )
]

find-update_other :
    (id other : ℕ) (f : Job → Job) (rows : List Job)
    → other ≢ id
    → ((k : Job) → (f k).id ≡ k.id)
    → find (λ (k : Job). k.id == other) (update (λ (k : Job). k.id == id) f rows)
      ≡ find (λ (k : Job). k.id == other) rows
find-update_other id other f [] differ keeps = refl
find-update_other id other f (k ∷ rows) differ keeps =
    ground (arith, find-update_other id other f rows differ keeps, keeps k)

module _ (handler : String → List ℕ → Result JobError (Unit {0}) × List Job) where
  -- If the claimed job is in the table, its row after `execute` is done, with the same attempts, if
  -- the handler succeeds. If the handler fails, the row has one attempt more than the claimed job
  -- and the handler's error; it is dead if these attempts reach the maximum, and otherwise pending
  -- and due after 30 seconds, 2 minutes, 10 minutes, 1 hour, or, from the fifth attempt, 6 hours.
  -- The row of any other identifier is as it was or as the handler has enqueued it.
  pub execute-Ends :
      (now other : ℕ) (job j : Job) (rows : List Job)
      → find (λ (k : Job). k.id == job.id) rows ≡ some j
      → other ≢ job.id
      → ((k : Job) × (find (λ (k : Job). k.id == job.id) (execute handler now job rows) ≡ some k)
          × Ends now job (dispatch handler job).0 j k)
        × (find (λ (k : Job). k.id == other) (execute handler now job rows)
            ≡ find (λ (k : Job). k.id == other) (rows ++ (dispatch handler job).1))
  unfolding execute
  execute-Ends now other job j rows h differ =
      let r = (dispatch handler job).0 in
      let all = rows ++ (dispatch handler job).1 in
      let write = finalized now job.attempts job.max_attempts r in
      let keeps = finalized-id now job.attempts job.max_attempts r in
      (
        (
          write j,
          find-update_id job.id write all j keeps
              (find-append_old (λ (k : Job). k.id == job.id) rows (dispatch handler job).1 j h),
          finalized-Ends now job j r,
        ),
        find-update_other job.id other write all differ keeps,
      )
