-- ===== src/Prelude/Results.antt =====
-- `Result<A, E>`, with the notation of a `do` block.
use mathlib.Core.Path.{◌≡◌, refl}
use mathlib.Core.Bool.{Bool, true, false}
use mathlib.Core.Option.{Option, none, some}
use mathlib.Core.Logic.{◌⊎◌, inl, inr}

pub data Result (E A : Type 0) : Type 0 where
  ok : A → Result E A
  err : E → Result E A

infixl 5 ◌>>=◌ ◌>>◌
abbrev pub ◌>>=◌ : {E A B : Type 0} → Result E A → (A → Result E B) → Result E B
ok a >>= f = f a
err e >>= f = err e

abbrev pub ◌>>◌ : {E B : Type 0} → Result E (Unit {0}) → Result E B → Result E B
ok _ >> k = k
err e >> k = err e

-- `if bad { return Err(e) }`
abbrev pub fail_if : {E : Type 0} → Bool → E → Result E (Unit {0})
fail_if true e = err e
fail_if false e = ok tt

-- `o.ok_or(e)?`
abbrev pub ok_or : {E A : Type 0} → Option A → E → Result E A
ok_or none e = err e
ok_or (some a) e = ok a

-- A result is a value or an error, for proofs where the call stays shut.
pub Result-cases :
    {E A : Type 0} (r : Result E A) → ((a : A) × (r ≡ ok a)) ⊎ ((e : E) × (r ≡ err e))
Result-cases (ok a) = inl (a, refl)
Result-cases (err e) = inr (e, refl)

-- What a successful chain has gone through, for proofs where the calls stay shut.
pub bind_ok :
    {E A B : Type 0} (m : Result E A) (f : A → Result E B) {b : B}
    → (m >>= f) ≡ ok b
    → (a : A) × (m ≡ ok a) × (f a ≡ ok b)
bind_ok (ok a) f h = (a, refl, h)
bind_ok (err e) f h = cc

pub then_ok :
    {E B : Type 0} (m : Result E (Unit {0})) (k : Result E B) {b : B}
    → (m >> k) ≡ ok b
    → (m ≡ ok tt) × (k ≡ ok b)
then_ok (ok tt) k h = (refl, h)
then_ok (err e) k h = cc

pub fail_if_ok : {E : Type 0} (b : Bool) (e : E) → fail_if b e ≡ ok tt → b ≡ false
fail_if_ok true e h = cc
fail_if_ok false e h = refl

pub ok_or_ok : {E A : Type 0} (o : Option A) (e : E) {a : A} → ok_or o e ≡ ok a → o ≡ some a
ok_or_ok none e h = cc
ok_or_ok (some a) e h = cc

pub ok_inj : {E A : Type 0} {a b : A} → ok a ≡ (let r : Result E A = ok b in r) → b ≡ a
ok_inj h = cc

pub guard_ok :
    {E B : Type 0} (b : Bool) (e : E) (k : Result E B) {v : B}
    → (fail_if b e >> k) ≡ ok v
    → (b ≡ false) × (k ≡ ok v)
guard_ok true e k h = cc
guard_ok false e k h = (refl, h)
