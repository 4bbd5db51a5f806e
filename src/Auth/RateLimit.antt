-- ===== src/Auth/RateLimit.antt =====
-- The limiter of sign-in attempts (src/auth/rate_limit.rs). The table `login_attempts` is a list;
-- times are microseconds, and `ts > now - window` is written `now < ts + window`. An address is the
-- number that `INET` stores.
use openaccounting.Prelude.{
  ℕ, ◌+◌, ◌-◌, ◌*◌, ◌/◌, Bool, true, ◌&&◌, not, Option, none, some, List, [], ◌∷◌, ◌++◌,
  if◌then◌else◌, ltb, leb, ◌==◌, min,
}
use openaccounting.Prelude.Tables.{select, count, delete}
use openaccounting.Prelude.Texts.{Text, text_eq}

pub record Attempt : Type 0 where
  pub ip : ℕ
  pub email : Text
  pub success : Bool
  pub ts : ℕ

pub data Decision : Type 0 where
  allowed throttled : Decision

abbrev pub second : ℕ
second = 1000000

abbrev pub account_window : ℕ
account_window = 10 * 60 * 1000000

abbrev pub ip_window : ℕ
ip_window = 60 * 60 * 1000000

abbrev pub account_failure_threshold : ℕ
account_failure_threshold = 5

abbrev pub ip_failure_threshold : ℕ
ip_failure_threshold = 20

-- WHERE success = false AND ts > now - window
abbrev pub is_recent : ℕ → ℕ → Attempt → Bool
is_recent window now a = not a.success && ltb now (a.ts + window)

abbrev pub of_account : Text → ℕ → Attempt → Bool
of_account email now a = text_eq a.email email && is_recent account_window now a

abbrev pub of_ip : ℕ → ℕ → Attempt → Bool
of_ip ip now a = a.ip == ip && is_recent ip_window now a

unfoldable pub record_attempt : ℕ → Text → Bool → ℕ → List Attempt → List Attempt
record_attempt ip email success now rows =
    rows ++ record { ip = ip; email = email; success = success; ts = now } ∷ []

unfoldable pub record_success : ℕ → Text → ℕ → List Attempt → List Attempt
record_success ip email now rows =
    delete (of_account email now) (record_attempt ip email true now rows)

unfoldable pub check_account : Text → ℕ → List Attempt → Decision
check_account email now rows =
    if leb account_failure_threshold (count (of_account email now) rows) then throttled else allowed

unfoldable pub check_ip : ℕ → ℕ → List Attempt → Decision
check_ip ip now rows =
    if leb ip_failure_threshold (count (of_ip ip now) rows) then throttled else allowed

-- SELECT MIN(ts)
unfoldable pub oldest : List Attempt → Option ℕ
oldest [] = none
oldest (a ∷ rows) = elim (oldest rows) [ none ↦ some a.ts | some t ↦ some (min a.ts t) ]

-- `(expiry - now).whole_seconds().max(0)`, or 0 without a failure.
unfoldable pub seconds_left : ℕ → ℕ → Option ℕ → ℕ
seconds_left window now none = 0
seconds_left window now (some ts) = (ts + window - now) / second

unfoldable pub retry_after_account : Text → ℕ → List Attempt → ℕ
retry_after_account email now rows =
    seconds_left account_window now (oldest (select (of_account email now) rows))

unfoldable pub retry_after_ip : ℕ → ℕ → List Attempt → ℕ
retry_after_ip ip now rows = seconds_left ip_window now (oldest (select (of_ip ip now) rows))
