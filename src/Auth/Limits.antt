-- ===== src/Auth/Limits.antt =====
-- When the limiter refuses, and what a success resets.
use openaccounting.Prelude.{
  ℕ, ◌+◌, ◌≤◌, ◌<◌, Bool, true, false, List, [], ◌∷◌, ◌++◌, ◌≡◌, ◌≢◌, refl, arith, length, All,
}
use openaccounting.Prelude.Tables.{count, delete}
use openaccounting.Prelude.Texts.{Text, text_eq_sound, text_eq_refl}
use openaccounting.Auth.RateLimit.{
  Attempt, allowed, throttled, account_window, of_account, record_attempt, record_success,
  check_account,
}

-- Failures at the given times, one after the other.
abbrev pub failures : ℕ → Text → List ℕ → List Attempt → List Attempt
failures ip email [] rows = rows
failures ip email (t ∷ times) rows = failures ip email times (record_attempt ip email false t rows)

count-append :
    (p : Attempt → Bool) (xs ys : List Attempt) → count p (xs ++ ys) ≡ count p xs + count p ys
count-append p [] ys = omega arith
count-append p (x ∷ xs) ys = ground (arith, count-append p xs ys)

count-failures_account :
    (ip : ℕ) (email : Text) (now : ℕ) (times : List ℕ) (rows : List Attempt)
    → All (λ t. now < t + account_window) times
    → count (of_account email now) (failures ip email times rows)
      ≡ count (of_account email now) rows + length times
unfolding record_attempt
count-failures_account ip email now [] rows h = omega arith
count-failures_account ip email now (t ∷ times) rows h = ground (
  arith,
  count-failures_account ip email now times
      (rows ++ record { ip = ip; email = email; success = false; ts = t } ∷ []) h.1,
  count-append (of_account email now) rows
      (record { ip = ip; email = email; success = false; ts = t } ∷ []),
  text_eq_refl email,
  h.0,
)

-- Five failed attempts for an account whose times lie in the last ten minutes throttle the account,
-- from whatever address and after whatever history.
pub check_account-throttled :
    (ip : ℕ) (email : Text) (now : ℕ) (times : List ℕ) (rows : List Attempt)
    → All (λ t. now < t + account_window) times
    → 5 ≤ length times
    → check_account email now (failures ip email times rows) ≡ throttled
unfolding check_account
check_account-throttled ip email now times rows h n =
    ground (arith, count-failures_account ip email now times rows h)

count-deleted :
    (email : Text) (now later : ℕ) (rows : List Attempt)
    → now ≤ later
    → count (of_account email later) (delete (of_account email now) rows) ≡ 0
count-deleted email now later [] h = refl
count-deleted email now later (a ∷ rows) h = ground (arith, count-deleted email now later rows)

-- After a success an account is allowed, at that time and at every later time before which no
-- further attempt is recorded.
pub record_success-allowed :
    (ip : ℕ) (email : Text) (now later : ℕ) (rows : List Attempt)
    → now ≤ later
    → check_account email later (record_success ip email now rows) ≡ allowed
unfolding check_account record_success
record_success-allowed ip email now later rows h =
    ground (arith, count-deleted email now later (record_attempt ip email true now rows) h)

count-other :
    (email other : Text) (now later : ℕ) (rows : List Attempt)
    → email ≢ other
    → count (of_account other later) (delete (of_account email now) rows)
      ≡ count (of_account other later) rows
count-other email other now later [] h = refl
count-other email other now later (a ∷ rows) h = ground (
  arith,
  count-other email other now later rows h,
  text_eq_sound a.email email,
  text_eq_sound a.email other,
)

-- The success of one account changes the decision on no other account.
pub record_success-other :
    (ip : ℕ) (email other : Text) (now later : ℕ) (rows : List Attempt)
    → email ≢ other
    → check_account other later (record_success ip email now rows) ≡ check_account other later rows
unfolding check_account record_success record_attempt
record_success-other ip email other now later rows h = ground (
  arith,
  count-other email other now later
      (rows ++ record { ip = ip; email = email; success = true; ts = now } ∷ []) h,
  count-append (of_account other later) rows
      (record { ip = ip; email = email; success = true; ts = now } ∷ []),
)
