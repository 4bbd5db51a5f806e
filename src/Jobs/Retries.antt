-- ===== src/Jobs/Retries.antt =====
-- A job that fails whenever the worker runs it.
use openaccounting.Prelude.{
  ℕ, zero, suc, ◌+◌, ◌*◌, ◌≤◌, ◌<◌, String, true, some, List, [], ◌∷◌, ◌≡◌, refl, arith, ap, subst,
  ◌∙◌,
}
use openaccounting.Prelude.Results.{Result, err}
use openaccounting.Jobs.Queue.{
  Job, JobError, pending, running, dead, delay, finalized, is_kind_of_job, run_due, execute_all,
  execute, dispatch, claim_due, due, by_run_at,
}

delay_short : (n : ℕ) → delay n ≤ 21600
unfolding delay
delay_short zero = omega arith
delay_short (suc zero) = omega arith
delay_short (suc (suc zero)) = omega arith
delay_short (suc (suc (suc zero))) = omega arith
delay_short (suc (suc (suc (suc zero)))) = omega arith
delay_short (suc (suc (suc (suc (suc zero))))) = omega arith
delay_short (suc (suc (suc (suc (suc (suc n)))))) = ground arith

-- The job waits for a run at this time.
pub record IsWaiting (now : ℕ) (j : Job) : Type 0 where
  pub waiting : j.status ≡ pending
  pub is_due : j.run_at ≤ now
  pub known : is_kind_of_job j.kind ≡ true

-- The job after failed runs that leave it an attempt.
record IsRetried (now tried : ℕ) (j k : Job) : Type 0 where
  waits : IsWaiting now k
  attempts_are : k.attempts ≡ j.attempts + tried
  same_max : k.max_attempts ≡ j.max_attempts
  same_kind : k.kind ≡ j.kind
  same_payload : k.payload ≡ j.payload

module _ (handler : String → List ℕ → Result JobError (Unit {0}) × List Job) where
  -- Runs of the worker, six hours apart.
  abbrev pub runs : ℕ → ℕ → List Job → List Job
  runs now zero rows = rows
  runs now (suc n) rows = runs (now + 21600) n (run_due handler now 1 rows).1

  run_due-finalized :
      (now : ℕ) (e : JobError) (j : Job)
      → IsWaiting now j
      → handler j.kind j.payload ≡ (err e, [])
      → (run_due handler now 1 (j ∷ [])).1
        ≡ finalized now j.attempts j.max_attempts
            (err e)
            (record j { status = running; updated_at = now })
          ∷ []
  unfolding run_due execute_all execute dispatch claim_due due by_run_at
  run_due-finalized now e j w fails = ground (arith, w.waiting, w.is_due, w.known, fails)

  run_due-IsRetried :
      (now : ℕ) (e : JobError) (j : Job)
      → IsWaiting now j
      → handler j.kind j.payload ≡ (err e, [])
      → j.attempts + 1 < j.max_attempts
      → (k : Job) × ((run_due handler now 1 (j ∷ [])).1 ≡ k ∷ []) × IsRetried (now + 21600) 1 j k
  unfolding finalized
  run_due-IsRetried now e j w fails more =
      let ran : Job = record j { status = running; updated_at = now } in
      let e1 = run_due-finalized now e j w fails in
      let short = delay_short (j.attempts + 1) in
      (
        record ran {
          status = pending;
          attempts = j.attempts + 1;
          last_error = some e;
          run_at = now + delay (j.attempts + 1);
          updated_at = now;
        },
        ground (arith, e1),
        record {
          waits = record { waiting = refl; is_due = omega (arith, short); known = w.known };
          attempts_are = refl;
          same_max = refl;
          same_kind = refl;
          same_payload = refl;
        },
      )

  runs-IsRetried :
      (now i : ℕ) (e : JobError) (j : Job)
      → IsWaiting now j
      → handler j.kind j.payload ≡ (err e, [])
      → j.attempts + i < j.max_attempts
      → (k : Job) × (runs now i (j ∷ []) ≡ k ∷ []) × IsRetried (now + i * 21600) i j k
  runs-IsRetried now zero e j w fails more = (
    j,
    refl,
    record {
      waits = record { waiting = w.waiting; is_due = omega (arith, w.is_due); known = w.known };
      attempts_are = omega arith;
      same_max = refl;
      same_kind = refl;
      same_payload = refl;
    },
  )
  runs-IsRetried now (suc i) e j w fails more =
      let (k, ran, r) = run_due-IsRetried now e j w fails (omega arith) in
      let (l, later, q) =
        runs-IsRetried (now + 21600) i e k r.waits (rw (r.same_kind, r.same_payload) fails)
          (omega (arith, r.attempts_are, r.same_max)) in
      let at_end : now + 21600 + i * 21600 ≡ now + suc i * 21600 = omega arith in
      (
        l,
        ap (runs (now + 21600) i) ran ∙ later,
        record {
          waits = subst (λ t. IsWaiting t l) at_end q.waits;
          attempts_are = omega (arith, q.attempts_are, r.attempts_are);
          same_max = q.same_max ∙ r.same_max;
          same_kind = q.same_kind ∙ r.same_kind;
          same_payload = q.same_payload ∙ r.same_payload;
        },
      )

  run_due_last :
      (now : ℕ) (e : JobError) (j : Job)
      → IsWaiting now j
      → handler j.kind j.payload ≡ (err e, [])
      → j.attempts + 1 ≡ j.max_attempts
      → (k : Job) × ((run_due handler now 1 (j ∷ [])).1 ≡ k ∷ [])
        × (k.status ≡ dead)
        × (k.attempts ≡ j.max_attempts)
        × (k.last_error ≡ some e)
  unfolding finalized
  run_due_last now e j w fails last =
      let ran : Job = record j { status = running; updated_at = now } in
      let e1 = run_due-finalized now e j w fails in
      (
        record ran {
          status = dead;
          attempts = j.attempts + 1;
          last_error = some e;
          updated_at = now;
        },
        ground (arith, e1),
        refl,
        last,
        refl,
      )

  runs_add :
      (now n : ℕ) (rows : List Job)
      → runs now (suc n) rows ≡ (run_due handler (now + n * 21600) 1 (runs now n rows)).1
  runs_add now zero rows = ap (λ t. (run_due handler t 1 rows).1) (omega arith)
  runs_add now (suc n) rows =
      runs_add (now + 21600) n (run_due handler now 1 rows).1
      ∙ ap (λ t. (run_due handler t 1 (runs (now + 21600) n (run_due handler now 1 rows).1)).1)
          (omega arith)

  -- Suppose that the worker runs every six hours on a table of one job, pending and due at the
  -- first run, of which `n + 1` attempts are left, and that its handler fails each time and
  -- enqueues nothing. After any `i ≤ n` runs the job is pending again with `i` attempts more, and
  -- after `n + 1` runs it is dead, with its maximum of attempts and the handler's error.
  pub runs_dead :
      (now n i : ℕ) (e : JobError) (j : Job)
      → IsWaiting now j
      → handler j.kind j.payload ≡ (err e, [])
      → j.attempts + suc n ≡ j.max_attempts
      → i ≤ n
      → ((k : Job) × (runs now i (j ∷ []) ≡ k ∷ [])
          × (k.status ≡ pending)
          × (k.attempts ≡ j.attempts + i))
        × ((k : Job) × (runs now (suc n) (j ∷ []) ≡ k ∷ [])
            × (k.status ≡ dead)
            × (k.attempts ≡ j.max_attempts)
            × (k.last_error ≡ some e))
  runs_dead now n i e j w fails left before =
      let (k, ran, r) = runs-IsRetried now i e j w fails (omega arith) in
      let (l, all, q) = runs-IsRetried now n e j w fails (omega arith) in
      let (m, last, status, tried, reason) =
        run_due_last (now + n * 21600) e l q.waits (rw (q.same_kind, q.same_payload) fails)
          (omega (arith, q.attempts_are, q.same_max)) in
      (
        (k, ran, r.waits.waiting, r.attempts_are),
        (
          m,
          runs_add now n (j ∷ [])
              ∙ (ap (λ rows. (run_due handler (now + n * 21600) 1 rows).1) all ∙ last),
          status,
          tried ∙ q.same_max,
          reason,
        ),
      )
