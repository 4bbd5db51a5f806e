-- ===== src/Auth/Timeout.antt =====
-- `src/auth/session_timeout.rs`: the idle and the absolute timeout of a session. Times are numbers
-- of milliseconds; a session is what the middleware keeps in it.
use openaccounting.Prelude.{
  ℕ, ◌+◌, ◌-◌, ◌*◌, ◌/◌, ◌≤◌, Bool, true, false, ◌||◌, Option, none, some, List, [], ◌∷◌, ◌≡◌, refl,
  arith, ltb, leb, if◌then◌else◌, All, Bool-cases, inl, inr,
}

pub record SessionGuard : Type 0 where
  pub idle : ℕ
  pub absolute : ℕ

-- DEFAULT_IDLE_SECONDS and DEFAULT_ABSOLUTE_SECONDS
abbrev pub default_guard : SessionGuard
default_guard = record { idle = 1800000; absolute = 43200000 }

pub record Session : Type 0 where
  pub created_at : Option ℕ
  pub last_seen_at : Option ℕ

abbrev pub mark_authenticated : ℕ → Session
mark_authenticated now = record { created_at = some now; last_seen_at = some now }

-- `t.map(|t| now - t > limit).unwrap_or(false)`
abbrev pub is_expired : ℕ → ℕ → Option ℕ → Bool
is_expired now limit none = false
is_expired now limit (some t) = ltb limit (now - t)

abbrev pub should_refresh : ℕ → ℕ → Option ℕ → Bool
should_refresh now idle none = true
should_refresh now idle (some t) = leb (idle / 2) (now - t)

-- Whether the request is passed on, and the session after it; an expired session is flushed.
unfoldable pub enforce_timeout : SessionGuard → ℕ → Session → Bool × Session
enforce_timeout g now s =
    if is_expired now g.idle s.last_seen_at || is_expired now g.absolute s.created_at
    then (false, record { created_at = none; last_seen_at = none })
    else (
      true,
      if should_refresh now g.idle s.last_seen_at then record s { last_seen_at = some now } else s,
    )

-- The decisions on requests at the times of a list.
unfoldable pub serve : SessionGuard → Session → List ℕ → List Bool
serve g s [] = []
serve g s (t ∷ ts) = let (passed, s') = enforce_timeout g t s in passed ∷ serve g s' ts

-- Each request comes within half the idle window of the one before.
abbrev pub IsSteady : ℕ → ℕ → List ℕ → Type 0
IsSteady idle prev [] = Unit
IsSteady idle prev (t ∷ ts) = (prev ≤ t) × (2 * (t - prev) ≤ idle) × IsSteady idle t ts

seen_IsSteady :
    (g : SessionGuard) (start seen prev : ℕ) (ts : List ℕ)
    → seen ≤ prev
    → 2 * (prev - seen) ≤ g.idle
    → IsSteady g.idle prev ts
    → All (λ t. t ≤ start + g.absolute) ts
    → All
        (λ b. b ≡ true)
        (serve g (record { created_at = some start; last_seen_at = some seen }) ts)
unfolding serve enforce_timeout
seen_IsSteady g start seen prev [] o n s b = tt
seen_IsSteady g start seen prev (t ∷ ts) o n (later, near, rest) b =
    let first = b.0 in
    let idle_ok : ltb g.idle (t - seen) ≡ false = ground arith in
    let absolute_ok : ltb g.absolute (t - start) ≡ false = ground arith in
    elim (Bool-cases (leb (g.idle / 2) (t - seen))) [
      | inl stale ↦
          rw (idle_ok, absolute_ok, stale)
            (refl, seen_IsSteady g start t t ts (omega arith) (omega arith) rest b.1)
      | inr recent ↦
          rw (idle_ok, absolute_ok, recent)
            (refl, seen_IsSteady g start seen t ts (omega arith) (ground arith) rest b.1)
    ]

-- A session from whose sign-in on each request comes within half the idle window of the one before,
-- and none after the absolute window, has all its requests passed on.
pub serve-IsSteady :
    (g : SessionGuard) (start : ℕ) (ts : List ℕ)
    → IsSteady g.idle start ts
    → All (λ t. t ≤ start + g.absolute) ts
    → All (λ b. b ≡ true) (serve g (mark_authenticated start) ts)
serve-IsSteady g start ts s b = seen_IsSteady g start start start ts (omega arith) (omega arith) s b
