-- ===== src/Claims/Reachable.antt =====
-- The states that a claim comes through.
use openaccounting.Prelude.{subst, true, ◌≡◌, ◌≢◌, refl, some, ◌⊎◌, inl, inr}
use openaccounting.Claims.Status.{
  ClaimStatus, draft, submitted, partially_approved, fully_approved, approved, rejected, paid,
  as_str, parse, can_transition_to,
}

-- A history of a claim: each state follows from the one before by an allowed transition.
pub data Trace (s : ClaimStatus) : ClaimStatus → Type 0 where
  here : Trace s s
  step : {t u : ClaimStatus} → Trace s t → can_transition_to t u ≡ true → Trace s u

-- The state `v` occurs in a history.
abbrev pub Visits : (v : ClaimStatus) {s t : ClaimStatus} → Trace s t → Type 0
Visits v {s} here = s ≡ v
Visits v {s} (step {t} {u} before _) = Visits v before ⊎ (u ≡ v)

none_to_approved : (t : ClaimStatus) → can_transition_to t approved ≢ true
unfolding can_transition_to
none_to_approved draft h = cc
none_to_approved submitted h = cc
none_to_approved partially_approved h = cc
none_to_approved fully_approved h = cc
none_to_approved approved h = cc
none_to_approved rejected h = cc
none_to_approved paid h = cc

not_approved : {t : ClaimStatus} → Trace draft t → t ≢ approved
not_approved here e = cc
not_approved (step {t} {u} before h) e =
    none_to_approved t (subst (λ v. can_transition_to t v ≡ true) e h)

Visits-last : (v : ClaimStatus) {s t : ClaimStatus} (tr : Trace s t) → t ≡ v → Visits v tr
Visits-last v here e = e
Visits-last v (step before h) e = inr e

before_paid :
    (t : ClaimStatus) → can_transition_to t paid ≡ true → t ≢ approved → t ≡ fully_approved
unfolding can_transition_to
before_paid draft h n = cc
before_paid submitted h n = cc
before_paid partially_approved h n = cc
before_paid fully_approved h n = refl
before_paid approved h n = absurd (n refl)
before_paid rejected h n = cc
before_paid paid h n = cc

-- Every history of a claim from a draft to paid goes through fully approved, and none from a draft
-- leads to the legacy state approved.
pub Trace-Visits :
    {t : ClaimStatus} (trace : Trace draft t)
    → (t ≢ approved) × (t ≡ paid → Visits fully_approved trace)
Trace-Visits trace = (not_approved trace, through trace)
  where
    through : {t : ClaimStatus} (trace : Trace draft t) → t ≡ paid → Visits fully_approved trace
    through here e = cc
    through (step {t} {u} before h) e = inl (
        Visits-last fully_approved before
          (before_paid t (subst (λ v. can_transition_to t v ≡ true) e h) (not_approved before)))

-- The name of a state is read back as the state.
pub parse-as_str : (s : ClaimStatus) → parse (as_str s) ≡ some s
unfolding parse as_str
parse-as_str draft = refl
parse-as_str submitted = refl
parse-as_str partially_approved = refl
parse-as_str fully_approved = refl
parse-as_str approved = refl
parse-as_str rejected = refl
parse-as_str paid = refl
