-- ===== src/Closing/Suffix.antt =====
-- Reading the number back from the text of an invoice number.
use mathlib.Core.List.{append_assoc}
use openaccounting.Prelude.{
  ℕ, zero, suc, ◌+◌, ◌-◌, ◌/◌, ◌%◌, ◌<◌, Bool, true, false, some, [], ◌∷◌, ◌++◌, ◌≡◌, ◌≢◌, refl,
  arith, length, if◌then◌else◌, ltb, All, All-append, ==_refl, ◌∙◌, length-append, subst,
}
use openaccounting.Prelude.Texts.{
  Text, show, show_fuel, show_padded, zeros, parse, parse_from, parse_from-show_padded,
}
use openaccounting.Closing.Numbering.{suffix_number, starts_with, invoice_number}

show_fuel-digits : (f n : ℕ) → All (λ c. c ≢ 45) (show_fuel f n)
unfolding show_fuel
show_fuel-digits zero n = tt
show_fuel-digits (suc f) n = choose (ltb n 10) (
    All-append (λ c. c ≢ 45) (show_fuel f (n / 10)) _ (show_fuel-digits f (n / 10))
      (omega arith, tt))
  where
    choose :
        (b : Bool)
        → All (λ c. c ≢ 45) (show_fuel f (n / 10) ++ (48 + n % 10) ∷ [])
        → All
            (λ c. c ≢ 45)
            (if b then (48 + n) ∷ [] else show_fuel f (n / 10) ++ (48 + n % 10) ∷ [])
    choose true more = (omega arith, tt)
    choose false more = more

suffix-skip : (p s : Text) → All (λ c. c ≢ 45) p → suffix_number (p ++ s) ≡ suffix_number s
unfolding suffix_number
suffix-skip [] s h = refl
suffix-skip (c ∷ p) s h = ground (arith, h.0, suffix-skip p s h.1)

show_padded-length : (w n : ℕ) → 0 < length (show_padded w n)
unfolding show_padded show show_fuel
show_padded-length w n = ground (
  arith,
  length-append (zeros (w - length (show n))) (show n),
  length-append (show_fuel n (n / 10)) ((48 + n % 10) ∷ []),
)

parse-nonempty : (s : Text) → 0 < length s → parse s ≡ parse_from 0 s
unfolding parse
parse-nonempty [] h = absurd (omega arith)
parse-nonempty (c ∷ s) h = refl

parse-show_padded : (w n : ℕ) → parse (show_padded w n) ≡ some n
parse-show_padded w n =
    parse-nonempty (show_padded w n) (show_padded-length w n) ∙ parse_from-show_padded w n

starts-append : (p t : Text) → starts_with p (p ++ t) ≡ true
unfolding starts_with
starts-append [] t = refl
starts-append (c ∷ p) t = ground (arith, starts-append p t, ==_refl c)

-- The number of an invoice is read back from its text by the pattern that seeds the sequence.
pub suffix_number-invoice_number : (year n : ℕ) → suffix_number (invoice_number year n) ≡ some n
unfolding invoice_number suffix_number show
suffix_number-invoice_number year n =
    rw
      (
        suffix-skip (show_fuel (suc year) year) (45 ∷ show_padded 4 n)
            (show_fuel-digits (suc year) year),
        parse-show_padded 4 n,
      )
      refl

pub starts_with-invoice_number :
    (year n : ℕ) → starts_with (show year ++ 45 ∷ []) (invoice_number year n) ≡ true
unfolding invoice_number
starts_with-invoice_number year n =
    subst (λ t. starts_with (show year ++ 45 ∷ []) t ≡ true)
      (append_assoc (show year) (45 ∷ []) (show_padded 4 n))
      (starts-append (show year ++ 45 ∷ []) (show_padded 4 n))
