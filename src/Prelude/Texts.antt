-- ===== src/Prelude/Texts.antt =====
-- Texts that the program takes apart or builds, as lists of code points: `str::trim`, decimal
-- printing (`{}` and `{:0w}`) and `str::parse` of an unsigned number.
use Prim.Native.Nat.{ℕ, zero, suc, ◌+◌, ◌-◌, ◌*◌, ◌/◌, ◌%◌, ◌<◌}
use mathlib.Core.Path.{◌≡◌, refl}
use mathlib.Core.Bool.{Bool, true, false, ◌&&◌, ◌||◌}
use mathlib.Core.List.{List, [], ◌∷◌, ◌++◌, reverse}
use mathlib.Core.Option.{Option, none, some}
use native.Mathlib.Omega.{arith}
use openaccounting.Prelude.Tests.{ltb, leb, ◌==◌, if◌then◌else◌}
use openaccounting.Prelude.Lists.{length}

abbrev pub Text : Type 0
Text = List ℕ

unfoldable pub text_eq : Text → Text → Bool
text_eq [] [] = true
text_eq [] (d ∷ t) = false
text_eq (c ∷ s) [] = false
text_eq (c ∷ s) (d ∷ t) = c == d && text_eq s t

pub text_eq_sound : (s t : Text) → text_eq s t ≡ true → s ≡ t
unfolding text_eq
text_eq_sound [] [] h = refl
text_eq_sound [] (d ∷ t) h = cc
text_eq_sound (c ∷ s) [] h = cc
text_eq_sound (c ∷ s) (d ∷ t) h = ground (arith, text_eq_sound s t)

pub text_eq_refl : (s : Text) → text_eq s s ≡ true
unfolding text_eq
text_eq_refl [] = refl
text_eq_refl (c ∷ s) = ground (arith, text_eq_refl s)

-- `char::is_whitespace`
unfoldable pub is_whitespace : ℕ → Bool
is_whitespace c =
    (leb 9 c && leb c 13)
    || c == 32
    || c == 133
    || c == 160
    || c == 5760
    || (leb 8192 c && leb c 8202)
    || c == 8232
    || c == 8233
    || c == 8239
    || c == 8287
    || c == 12288

unfoldable pub trim_start : Text → Text
unfolding is_whitespace
trim_start [] = []
trim_start (c ∷ s) = if is_whitespace c then trim_start s else c ∷ s

-- `str::trim`
unfoldable pub trim : Text → Text
unfolding trim_start
trim s = reverse (trim_start (reverse (trim_start s)))

-- The decimal digits of a number, most significant first; `n` rounds are enough, since each one
-- drops a digit.
unfoldable pub show_fuel : ℕ → ℕ → Text
show_fuel zero n = []
show_fuel (suc f) n =
    let more = show_fuel f (n / 10) in
    if ltb n 10 then (48 + n) ∷ [] else more ++ (48 + n % 10) ∷ []

-- `{}` of an unsigned number
unfoldable pub show : ℕ → Text
unfolding show_fuel
show n = show_fuel (suc n) n

abbrev pub zeros : ℕ → Text
zeros zero = []
zeros (suc n) = 48 ∷ zeros n

-- `{:0w}` of an unsigned number
unfoldable pub show_padded : ℕ → ℕ → Text
unfolding show
show_padded w n = let s = show n in zeros (w - length s) ++ s

unfoldable pub is_digit : ℕ → Bool
is_digit c = leb 48 c && leb c 57

-- The value of a run of digits read after `acc`; `none` at anything else.
unfoldable pub parse_from : ℕ → Text → Option ℕ
unfolding is_digit
parse_from acc [] = some acc
parse_from acc (c ∷ s) =
    let rest = parse_from (acc * 10 + (c - 48)) s in if is_digit c then rest else none

-- `str::parse` of an unsigned number with no sign; the empty text is no number.
unfoldable pub parse : Text → Option ℕ
unfolding parse_from
parse [] = none
parse (c ∷ s) = parse_from 0 (c ∷ s)

pub parse_from-append :
    (s : Text) (acc v c : ℕ)
    → parse_from acc s ≡ some v
    → c < 10
    → parse_from acc (s ++ (48 + c) ∷ []) ≡ some (v * 10 + c)
unfolding parse_from
parse_from-append [] acc v c h lt = ground arith
parse_from-append (d ∷ s) acc v c h lt =
    ground (arith, parse_from-append s (acc * 10 + (d - 48)) v c)

pub parse_from-show_fuel : (f n : ℕ) → n < f → parse_from 0 (show_fuel f n) ≡ some n
unfolding show_fuel parse_from
parse_from-show_fuel zero n h = elim h [ ]
parse_from-show_fuel (suc f) n h = ground (
  arith,
  parse_from-append [] 0 0 n refl,
  parse_from-show_fuel f (n / 10),
  parse_from-append (show_fuel f (n / 10)) 0 (n / 10) (n % 10),
)

pub parse_from-zeros : (k : ℕ) (s : Text) → parse_from 0 (zeros k ++ s) ≡ parse_from 0 s
unfolding parse_from
parse_from-zeros zero s = refl
parse_from-zeros (suc k) s = parse_from-zeros k s

-- A number printed with padding and read back is the same number.
pub parse_from-show_padded : (w n : ℕ) → parse_from 0 (show_padded w n) ≡ some n
unfolding show_padded
parse_from-show_padded w n =
    rw (parse_from-zeros (w - length (show n)) (show n))
      (parse_from-show_fuel (suc n) n (omega arith))
