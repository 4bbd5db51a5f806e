-- ===== src/Jobs/Claims.antt =====
-- What `claim_due` claims.
use openaccounting.Prelude.{
  ℕ, zero, suc, ◌≤◌, Bool, true, false, List, [], ◌∷◌, ◌≡◌, refl, arith, All, length, if◌then◌else◌,
  ltb,
}
use openaccounting.Prelude.Tables.{select, update}
use openaccounting.Jobs.Queue.{
  Job, running, is_due, insert, by_run_at, limit_to, due, is_in, claim_due,
}

module _ (P : Job → Type 0) where
  All-insert : (j : Job) (jobs : List Job) → P j → All P jobs → All P (insert j jobs)
  All-insert j [] pj h = (pj, tt)
  All-insert j (k ∷ jobs) pj h = split (ltb k.run_at j.run_at) (All-insert j jobs pj h.1)
    where
      split :
          (b : Bool) → All P (insert j jobs) → All P (if b then k ∷ insert j jobs else j ∷ k ∷ jobs)
      split true rest = (h.0, rest)
      split false rest = (pj, h)

  All-by_run_at : (jobs : List Job) → All P jobs → All P (by_run_at jobs)
  unfolding by_run_at
  All-by_run_at [] h = tt
  All-by_run_at (j ∷ jobs) h = All-insert j (by_run_at jobs) h.0 (All-by_run_at jobs h.1)

  All-limit_to : (n : ℕ) (jobs : List Job) → All P jobs → All P (limit_to n jobs)
  All-limit_to zero jobs h = tt
  All-limit_to (suc n) [] h = tt
  All-limit_to (suc n) (j ∷ jobs) h = (h.0, All-limit_to n jobs h.1)

  -- A selected row has what the rows have that pass the test.
  All-select :
      (p : Job → Bool) (jobs : List Job) → All (λ j. p j ≡ true → P j) jobs → All P (select p jobs)
  All-select p [] h = tt
  All-select p (j ∷ jobs) h = split (p j) h.0 (All-select p jobs h.1)
    where
      split :
          (b : Bool)
          → (b ≡ true → P j)
          → All P (select p jobs)
          → All P (if b then j ∷ select p jobs else select p jobs)
      split true keep rest = (keep refl, rest)
      split false keep rest = rest

  All-due :
      (now n : ℕ) (rows : List Job)
      → All (λ j. is_due now j ≡ true → P j) rows
      → All P (due now n rows)
  unfolding due
  All-due now n rows h =
      All-limit_to n (by_run_at (select (is_due now) rows))
        (All-by_run_at (select (is_due now) rows) (All-select (is_due now) rows h))

All-same : (p : Job → Bool) (rows : List Job) → All (λ j. p j ≡ true → p j ≡ true) rows
All-same p [] = tt
All-same p (j ∷ rows) = (λ e. e, All-same p rows)

length-limit_to : (n : ℕ) (jobs : List Job) → length (limit_to n jobs) ≤ n
length-limit_to zero jobs = omega arith
length-limit_to (suc n) [] = omega arith
length-limit_to (suc n) (j ∷ jobs) = omega (arith, length-limit_to n jobs)

-- After the update a row that is due is none of the claimed ones.
claimed-running :
    (claimed : List Job) (now later : ℕ) (rows : List Job)
    → All
        (λ j. is_due later j ≡ true → is_in claimed j ≡ false)
        (update (is_in claimed) (λ j. record j { status = running; updated_at = now }) rows)
claimed-running claimed now later [] = tt
claimed-running claimed now later (j ∷ rows) =
    let rest = claimed-running claimed now later rows in (head (is_in claimed j) refl, rest)
  where
    claim : Bool → Job
    claim b = if b then record j { status = running; updated_at = now } else j

    head :
        (b : Bool)
        → is_in claimed j ≡ b
        → is_due later (claim b) ≡ true
        → is_in claimed (claim b) ≡ false
    head true e here = cc
    head false e here = e

-- `claim_due` claims at most as many rows as its limit, and only rows that are due; and no later
-- claim on the table that it leaves, at whatever time, claims one of them again.
pub claim_due-once :
    (now n later m : ℕ) (rows : List Job)
    → All (λ j. is_due now j ≡ true) (claim_due now n rows).0
      × (length (claim_due now n rows).0 ≤ n)
      × All
          (λ j. is_in (claim_due now n rows).0 j ≡ false)
          (claim_due later m (claim_due now n rows).1).0
unfolding claim_due due
claim_due-once now n later m rows = (
  All-due (λ j. is_due now j ≡ true) now n rows (All-same (is_due now) rows),
  length-limit_to n (by_run_at (select (is_due now) rows)),
  All-due (λ j. is_in (due now n rows) j ≡ false) later m
      (update (is_in (due now n rows)) (λ j. record j { status = running; updated_at = now }) rows)
      (claimed-running (due now n rows) now later rows),
)
