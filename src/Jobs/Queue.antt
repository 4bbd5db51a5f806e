-- ===== src/Jobs/Queue.antt =====
-- The table `jobs`, and the operations on it (src/jobs/mod.rs). Times are seconds. A payload is the
-- bytes of its JSON. The handlers of the sibling modules are a parameter: what a handler returns, and
-- the rows that it enqueues meanwhile.
use openaccounting.Prelude.{
  ℕ, zero, suc, ◌+◌, ◌-◌, ◌*◌, String, Bool, false, ◌||◌, Option, none, some, List, [], ◌∷◌, ◌++◌,
  length, get_elem?, if◌then◌else◌, leb, ltb, ◌==◌, str_eq,
}
use openaccounting.Prelude.Tables.{select, update, delete, exists, count}
use openaccounting.Prelude.Results.{Result, ok, err}

pub data Status : Type 0 where
  pending running done dead : Status

-- The text of `unknown_kind` and `payload_error` is made of the name that they hold.
pub data JobError : Type 0 where
  payload_error failed unknown_kind : String → JobError
  db_error : JobError

pub record Job : Type 0 where
  pub id : ℕ
  pub kind : String
  pub payload : List ℕ
  pub run_at : ℕ
  pub status : Status
  pub attempts : ℕ
  pub max_attempts : ℕ
  pub last_error : Option JobError
  pub created_by : Option ℕ
  pub updated_at : ℕ

-- BACKOFF_SECONDS
abbrev pub backoff_seconds : List ℕ
backoff_seconds = 30 ∷ 120 ∷ 600 ∷ 3600 ∷ 21600 ∷ []

-- The row that an INSERT makes; the schema gives the identifier, and five attempts at most.
unfoldable pub enqueue : ℕ → String → List ℕ → Option ℕ → Option ℕ → ℕ → List Job → List Job
enqueue id kind payload run_at created_by now rows =
    rows
    ++ record {
      id = id;
      kind = kind;
      payload = payload;
      run_at = elim run_at [ some t ↦ t | none ↦ now ];
      status = pending;
      attempts = 0;
      max_attempts = 5;
      last_error = none;
      created_by = created_by;
      updated_at = now;
    }
      ∷ []

-- WHERE status = 'pending' AND run_at <= now()
abbrev pub is_due : ℕ → Job → Bool
is_due now j = elim j.status [
  | pending ↦ leb j.run_at now
  | running ↦ false
  | done ↦ false
  | dead ↦ false
]

-- ORDER BY run_at
abbrev pub insert : Job → List Job → List Job
insert j [] = j ∷ []
insert j (k ∷ jobs) =
    let rest = insert j jobs in if ltb k.run_at j.run_at then k ∷ rest else j ∷ k ∷ jobs

unfoldable pub by_run_at : List Job → List Job
by_run_at [] = []
by_run_at (j ∷ jobs) = insert j (by_run_at jobs)

-- LIMIT n
abbrev pub limit_to : ℕ → List Job → List Job
limit_to zero jobs = []
limit_to (suc n) [] = []
limit_to (suc n) (j ∷ jobs) = j ∷ limit_to n jobs

unfoldable pub due : ℕ → ℕ → List Job → List Job
due now n rows = limit_to n (by_run_at (select (is_due now) rows))

abbrev pub is_in : List Job → Job → Bool
is_in jobs j = exists (λ (k : Job). k.id == j.id) jobs

-- The rows that are claimed, and the table in which they are running.
unfoldable pub claim_due : ℕ → ℕ → List Job → List Job × List Job
claim_due now n rows = (
  due now n rows,
  update (is_in (due now n rows)) (λ j. record j { status = running; updated_at = now }) rows,
)

-- `BACKOFF_SECONDS.get(attempts - 1)`, or the last entry
unfoldable pub delay : ℕ → ℕ
delay attempts = elim (get_elem? backoff_seconds (attempts - 1)) [ some d ↦ d | none ↦ 21600 ]

-- The row that `execute` writes for a claimed job with this result.
unfoldable pub finalized : ℕ → ℕ → ℕ → Result JobError (Unit {0}) → Job → Job
finalized now tried most (ok tt) j = record j { status = done; updated_at = now }
finalized now tried most (err e) j =
    if leb most (tried + 1)
    then record j { status = dead; attempts = tried + 1; last_error = some e; updated_at = now }
    else record j {
      status = pending;
      attempts = tried + 1;
      last_error = some e;
      run_at = now + delay (tried + 1);
      updated_at = now;
    }

abbrev pub is_kind_of_job : String → Bool
is_kind_of_job k =
    str_eq k "template_scan"
    || str_eq k "invoice_reminder_scan"
    || str_eq k "recurring_invoice_scan"
    || str_eq k "restore_verify"
    || str_eq k "webhook_delivery"
    || str_eq k "automation_action"
    || str_eq k "email_send"
    || str_eq k "weekly_digest"

module _ (handler : String → List ℕ → Result JobError (Unit {0}) × List Job) where
  unfoldable pub dispatch : Job → Result JobError (Unit {0}) × List Job
  dispatch job =
      if is_kind_of_job job.kind
      then handler job.kind job.payload
      else (err (unknown_kind job.kind), [])

  unfoldable pub execute : ℕ → Job → List Job → List Job
  execute now job rows =
      update (λ (j : Job). j.id == job.id)
        (finalized now job.attempts job.max_attempts (dispatch job).0) (rows ++ (dispatch job).1)

  unfoldable pub execute_all : ℕ → List Job → List Job → List Job
  execute_all now [] rows = rows
  execute_all now (j ∷ jobs) rows = execute_all now jobs (execute now j rows)

  unfoldable pub run_due : ℕ → ℕ → List Job → ℕ × List Job
  run_due now n rows =
      let claimed = claim_due now n rows in (length claimed.0, execute_all now claimed.0 claimed.1)

abbrev pub thirty_days : ℕ
thirty_days = 30 * 86400

-- DELETE … WHERE status IN ('done', 'dead') AND updated_at < now() - INTERVAL '30 days'
abbrev pub is_old : ℕ → Job → Bool
is_old now j = elim j.status [
  | pending ↦ false
  | running ↦ false
  | done ↦ ltb (j.updated_at + thirty_days) now
  | dead ↦ ltb (j.updated_at + thirty_days) now
]

unfoldable pub purge_old : ℕ → List Job → ℕ × List Job
purge_old now rows = (count (is_old now) rows, delete (is_old now) rows)
