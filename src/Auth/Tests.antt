-- ===== src/Auth/Tests.antt =====
-- The theorems about the limiter at concrete attempts.
use openaccounting.Prelude.{All, true, ℕ, ◌+◌, List, [], ◌∷◌, ◌≡◌, arith}
use openaccounting.Prelude.Texts.{Text}
use openaccounting.Auth.Timeout.{default_guard, mark_authenticated, serve, serve-IsSteady}
use openaccounting.Auth.RateLimit.{Attempt, throttled, check_account}
use openaccounting.Auth.Limits.{failures, check_account-throttled}

abbrev alice : Text
alice = 97 ∷ 64 ∷ 120 ∷ []

abbrev bob : Text
bob = 98 ∷ 64 ∷ 120 ∷ []

abbrev start : ℕ
start = 1800000000000000

abbrev times : List ℕ
times = start ∷ (start + 10) ∷ (start + 20) ∷ (start + 30) ∷ (start + 40) ∷ []

abbrev attack : List Attempt
attack = failures 5 alice times []

check_account-throttled_example : check_account alice (start + 50) attack ≡ throttled
check_account-throttled_example =
    check_account-throttled 5 alice (start + 50) times []
      (omega arith, (omega arith, (omega arith, (omega arith, (omega arith, tt))))) (omega arith)

-- Three requests, each within a quarter of an hour of the one before.
serve-IsSteady_example :
    All
      (λ b. b ≡ true)
      (serve default_guard (mark_authenticated 0) (800000 ∷ 1700000 ∷ 2600000 ∷ []))
serve-IsSteady_example =
    serve-IsSteady default_guard 0 (800000 ∷ 1700000 ∷ 2600000 ∷ [])
      (omega arith, omega arith, (omega arith, omega arith, (omega arith, omega arith, tt)))
      (omega arith, (omega arith, (omega arith, tt)))
