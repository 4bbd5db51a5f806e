-- ===== src/Closing/Numbering.antt =====
-- `validate_reason` and `next_invoice_number` (src/domain/close_controls.rs). Texts are lists of
-- code points, and a year is not negative.
use openaccounting.Prelude.{
  ℕ, ◌+◌, Bool, true, false, ◌&&◌, Option, none, some, List, [], ◌∷◌, ◌++◌, length, if◌then◌else◌,
  ltb, ◌==◌, max,
}
use openaccounting.Prelude.Tables.{find, update}
use openaccounting.Prelude.Results.{Result, ok, err, ◌>>=◌}
use openaccounting.Prelude.Texts.{Text, trim, show, show_padded, parse}

abbrev pub min_reason_len : ℕ
min_reason_len = 10

unfoldable pub validate_reason : Text → Option Text
validate_reason reason =
    if ltb (length (trim reason)) min_reason_len then none else some (trim reason)

pub record Invoice : Type 0 where
  pub ledger_id : ℕ
  pub invoice_number : Text

pub record Sequence : Type 0 where
  pub ledger_id : ℕ
  pub year : ℕ
  pub last_no : ℕ

pub record Sales : Type 0 where
  pub invoices : List Invoice
  pub sequences : List Sequence

-- The cast to INT fails past `i32::MAX`, and there the increment overflows.
pub data Overflow : Type 0 where
  overflow : Overflow

abbrev pub in_i32 : ℕ → Bool
in_i32 n = ltb n 2147483648

-- substring(t from '-(\d+)$'): what follows the first dash after which there are only digits.
unfoldable pub suffix_number : Text → Option ℕ
suffix_number [] = none
suffix_number (c ∷ s) =
    let rest = suffix_number s in
    if c == 45 then (elim (parse s) [ some n ↦ some n | none ↦ rest ]) else rest

unfoldable pub starts_with : Text → Text → Bool
starts_with [] t = true
starts_with (c ∷ p) [] = false
starts_with (c ∷ p) (d ∷ t) = c == d && starts_with p t

-- WHERE ledger_id = $1 AND invoice_number LIKE '{year}-%'
abbrev pub of_year : ℕ → ℕ → Invoice → Bool
of_year ledger year i = i.ledger_id == ledger && starts_with (show year ++ 45 ∷ []) i.invoice_number

-- MAX(…::INT) over those invoices, NULL read as 0.
unfoldable pub max_suffix : ℕ → ℕ → List Invoice → Result Overflow ℕ
unfolding suffix_number starts_with
max_suffix ledger year [] = ok 0
max_suffix ledger year (i ∷ invoices) =
    let rest = max_suffix ledger year invoices in
    if of_year ledger year i
    then (elim (suffix_number i.invoice_number) [
      | none ↦ rest
      | some n ↦ if in_i32 n then (rest >>= λ m. ok (max n m)) else err overflow
    ])
    else rest

abbrev pub is_sequence : ℕ → ℕ → Sequence → Bool
is_sequence ledger year s = s.ledger_id == ledger && s.year == year

unfoldable pub last_no : ℕ → ℕ → Sales → Option ℕ
last_no ledger year db = elim (find (is_sequence ledger year) db.sequences) [
  | none ↦ none
  | some s ↦ some s.last_no
]

-- The last number given, with the row of the sequence made where there is none.
unfoldable pub seeded : ℕ → ℕ → Sales → Result Overflow (ℕ × Sales)
unfolding last_no
seeded ledger year db = elim (last_no ledger year db) [
  | some n ↦ ok (n, db)
  | none ↦ max_suffix ledger year db.invoices >>= λ seed. ok (
    seed,
    record db {
      sequences = db.sequences ++ record { ledger_id = ledger; year = year; last_no = seed } ∷ [];
    },
  )
]

unfoldable pub invoice_number : ℕ → ℕ → Text
invoice_number year n = show year ++ (45 ∷ show_padded 4 n)

unfoldable pub next_invoice_number : ℕ → ℕ → Sales → Result Overflow (Text × Sales)
unfolding seeded invoice_number
next_invoice_number ledger year db = seeded ledger year db >>= λ found.
    if in_i32 (found.0 + 1)
    then ok (
      invoice_number year (found.0 + 1),
      record found.1 {
        sequences =
            update (is_sequence ledger year) (λ s. record s { last_no = found.0 + 1 })
              found.1.sequences;
      },
    )
    else err overflow
