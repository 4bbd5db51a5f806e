-- ===== src/Auth/Retry.antt =====
-- The promise of the `Retry-After` header.
use openaccounting.Prelude.{
  ℕ, ◌+◌, ◌*◌, ◌≤◌, ◌<◌, Bool, true, false, none, some, List, [], ◌∷◌, ◌≡◌, refl, arith, All,
  if◌then◌else◌, Option-cases, inl, inr,
}
use openaccounting.Prelude.Tables.{select, count}
use openaccounting.Prelude.Texts.{Text}
use openaccounting.Auth.RateLimit.{
  Attempt, throttled, second, account_window, of_account, check_account, oldest, seconds_left,
  retry_after_account,
}

-- The oldest failure is not later than any other.
oldest-le :
    (t : ℕ) (rows : List Attempt) → oldest rows ≡ some t → All (λ (a : Attempt). t ≤ a.ts) rows
unfolding oldest
oldest-le t [] h = tt
oldest-le t (a ∷ rows) h = elim (Option-cases (oldest rows)) [
  | inl e ↦ (ground arith, none_empty rows e)
  | inr (s, e) ↦ (ground arith, lower s rows (oldest-le s rows e) (ground arith))
]
  where
    none_empty : (l : List Attempt) → oldest l ≡ none → All (λ (b : Attempt). t ≤ b.ts) l
    none_empty [] h = tt
    none_empty (b ∷ l) h = absurd (ground arith)

    lower :
        (s : ℕ) (l : List Attempt)
        → All (λ (b : Attempt). s ≤ b.ts) l
        → t ≤ s
        → All (λ (b : Attempt). t ≤ b.ts) l
    lower s [] h le = tt
    lower s (b ∷ l) h le = (omega (arith, h.0), lower s l h.1 le)

-- Failures that count now still count until the oldest of them leaves the window.
count-later :
    (email : Text) (now later t : ℕ) (rows : List Attempt)
    → All (λ (a : Attempt). t ≤ a.ts) (select (of_account email now) rows)
    → later < t + account_window
    → count (of_account email now) rows ≤ count (of_account email later) rows
count-later email now later t [] h le = omega arith
count-later email now later t (a ∷ rows) h le =
    split (of_account email now a) refl (λ k. count-later email now later t rows k le) h
  where
    split :
        (b : Bool)
        → of_account email now a ≡ b
        → (All (λ (a : Attempt). t ≤ a.ts) (select (of_account email now) rows)
            → count (of_account email now) rows ≤ count (of_account email later) rows)
        → All
            (λ (a : Attempt). t ≤ a.ts)
            (if b
              then a ∷ select (of_account email now) rows
              else select (of_account email now) rows)
        → count (of_account email now) (a ∷ rows) ≤ count (of_account email later) (a ∷ rows)
    split true e rest k = ground (arith, rest k.1, k.0)
    split false e rest k = ground (arith, rest k)

-- If an account is throttled, it is throttled at every later time before the seconds of
-- `retry_after_account` have passed: a client that does not wait for them is refused again.
pub retry_after_account-too_early :
    (email : Text) (now later : ℕ) (rows : List Attempt)
    → check_account email now rows ≡ throttled
    → now ≤ later
    → later < now + retry_after_account email now rows * second
    → check_account email later rows ≡ throttled
unfolding check_account retry_after_account seconds_left
retry_after_account-too_early email now later rows h le early =
    elim (Option-cases (oldest (select (of_account email now) rows))) [
      | inl e ↦ absurd (ground arith)
      | inr (t, e) ↦
          let bound : later < t + account_window = ground arith in
          ground (
            arith,
            count-later email now later t rows (oldest-le t (select (of_account email now) rows) e)
                bound,
          )
    ]
