-- ===== src/Closing/Gapless.antt =====
-- Invoice numbers are new and follow each other without a gap.
use openaccounting.Prelude.{
  ℕ, suc, ◌+◌, ◌≤◌, true, none, some, List, [], ◌∷◌, ◌++◌, ◌≡◌, ◌≢◌, refl, arith, All, All-map,
  All-append, sym, subst, ==_refl, Option-cases, inl, inr,
}
use openaccounting.Prelude.Tables.{find, update, find-append_new}
use openaccounting.Prelude.Results.{ok, Result-cases}
use openaccounting.Prelude.Texts.{Text}
use openaccounting.Closing.Numbering.{
  Invoice, Sequence, Sales, suffix_number, of_year, max_suffix, is_sequence, last_no, seeded,
  invoice_number, next_invoice_number,
}
use openaccounting.Closing.Suffix.{suffix_number-invoice_number, starts_with-invoice_number}

-- The number that ends an invoice of the ledger and the year is at most `n`.
abbrev pub IsBounded : ℕ → ℕ → ℕ → Invoice → Type 0
IsBounded ledger year n i =
    of_year ledger year i ≡ true → (m : ℕ) → suffix_number i.invoice_number ≡ some m → m ≤ n

-- A sequence that has begun bounds the numbers of the invoices.
abbrev pub IsSeeded : ℕ → ℕ → Sales → Type 0
IsSeeded ledger year db =
    (n : ℕ) → last_no ledger year db ≡ some n → All (IsBounded ledger year n) db.invoices

IsBounded-le :
    (ledger year m n : ℕ) (invoices : List Invoice)
    → m ≤ n
    → All (IsBounded ledger year m) invoices
    → All (IsBounded ledger year n) invoices
IsBounded-le ledger year m n invoices le h =
    All-map (IsBounded ledger year m) (IsBounded ledger year n) invoices
      (λ i b here k e. omega (arith, b here k e)) h

max_suffix-IsBounded :
    (ledger year n : ℕ) (invoices : List Invoice)
    → max_suffix ledger year invoices ≡ ok n
    → All (IsBounded ledger year n) invoices
unfolding max_suffix
max_suffix-IsBounded ledger year n [] h = tt
max_suffix-IsBounded ledger year n (i ∷ invoices) h =
    elim (Result-cases (max_suffix ledger year invoices)) [
      | inr (_, e) ↦ absurd (ground arith)
      | inl (k, e) ↦ (
        λ here m read. ground arith,
        IsBounded-le ledger year k n invoices (ground arith)
            (max_suffix-IsBounded ledger year k invoices e),
      )
    ]

last_no-append :
    (ledger year n : ℕ) (db : Sales)
    → last_no ledger year db ≡ none
    → last_no ledger year (record db {
      sequences = db.sequences ++ record { ledger_id = ledger; year = year; last_no = n } ∷ [];
    })
      ≡ some n
unfolding last_no
last_no-append ledger year n db h =
    elim (Option-cases (find (is_sequence ledger year) db.sequences)) [
      | inr (k, e) ↦ absurd (ground arith)
      | inl e ↦
          rw
            (
              last_no,
              find-append_new (is_sequence ledger year) db.sequences
                  (record { ledger_id = ledger; year = year; last_no = n }) e
                  (ground (arith, ==_refl ledger, ==_refl year)),
            )
            refl
    ]

find-update_last :
    (ledger year n : ℕ) (rows : List Sequence) (s : Sequence)
    → find (is_sequence ledger year) rows ≡ some s
    → find
        (is_sequence ledger year)
        (update (is_sequence ledger year) (λ s. record s { last_no = n }) rows)
      ≡ some (record s { last_no = n })
find-update_last ledger year n [] s h = cc
find-update_last ledger year n (r ∷ rows) s h =
    ground (arith, find-update_last ledger year n rows s)

last_no-update :
    (ledger year m n : ℕ) (db : Sales)
    → last_no ledger year db ≡ some m
    → last_no ledger year (record db {
      sequences = update (is_sequence ledger year) (λ s. record s { last_no = n }) db.sequences;
    })
      ≡ some n
unfolding last_no
last_no-update ledger year m n db h =
    elim (Option-cases (find (is_sequence ledger year) db.sequences)) [
      | inl e ↦ absurd (ground arith)
      | inr (s, e) ↦ rw (last_no, find-update_last ledger year n db.sequences s e) refl
    ]

seeded_facts :
    (ledger year n : ℕ) (db db' : Sales)
    → seeded ledger year db ≡ ok (n, db')
    → (last_no ledger year db' ≡ some n) × (db'.invoices ≡ db.invoices)
unfolding seeded
seeded_facts ledger year n db db' h = elim (Option-cases (last_no ledger year db)) [
  | inr (k, e) ↦ (ground arith, ground arith)
  | inl e ↦ elim (Result-cases (max_suffix ledger year db.invoices)) [
    | inr (_, bad) ↦ absurd (ground arith)
    | inl (k, good) ↦ (ground (arith, last_no-append ledger year n db e), ground arith)
  ]
]

seeded-IsBounded :
    (ledger year n : ℕ) (db db' : Sales)
    → IsSeeded ledger year db
    → seeded ledger year db ≡ ok (n, db')
    → All (IsBounded ledger year n) db.invoices
unfolding seeded
seeded-IsBounded ledger year n db db' s h = elim (Option-cases (last_no ledger year db)) [
  | inr (k, e) ↦ s n (ground arith)
  | inl e ↦ elim (Result-cases (max_suffix ledger year db.invoices)) [
    | inr (_, bad) ↦ absurd (ground arith)
    | inl (k, good) ↦ max_suffix-IsBounded ledger year n db.invoices (ground arith)
  ]
]

-- What a successful allocation gives, and the sequence that it leaves.
next_facts :
    (ledger year : ℕ) (db db' : Sales) (t : Text)
    → next_invoice_number ledger year db ≡ ok (t, db')
    → (n : ℕ) × (t ≡ invoice_number year (suc n))
      × (last_no ledger year db' ≡ some (suc n))
      × (db'.invoices ≡ db.invoices)
      × (IsSeeded ledger year db → All (IsBounded ledger year n) db.invoices)
unfolding next_invoice_number
next_facts ledger year db db' t h = elim (Result-cases (seeded ledger year db)) [
  | inr (_, e) ↦ absurd (ground arith)
  | inl ((n, mid), e) ↦
      let (last, same) = seeded_facts ledger year n db mid e in
      (
        n,
        ground arith,
        ground (arith, last_no-update ledger year n (n + 1) mid last),
        ground arith,
        λ s. seeded-IsBounded ledger year n db mid s e,
      )
]

-- If the sequence of a ledger and a year, where it has begun, bounds the numbers of that ledger's
-- invoices of the year, then a number that `next_invoice_number` gives is on no invoice of the
-- ledger, and the sequence bounds the numbers again once an invoice carries the new one.
pub next_invoice_number-IsSeeded :
    (ledger year : ℕ) (db db' : Sales) (t : Text)
    → IsSeeded ledger year db
    → next_invoice_number ledger year db ≡ ok (t, db')
    → All (λ i. i.ledger_id ≡ ledger → i.invoice_number ≢ t) db.invoices
      × IsSeeded ledger year (record db' {
        invoices = db'.invoices ++ record { ledger_id = ledger; invoice_number = t } ∷ [];
      })
unfolding last_no
next_invoice_number-IsSeeded ledger year db db' t s h =
    let (n, text, last, same, bounded) = next_facts ledger year db db' t h in
    let bounds = bounded s in
    (
      All-map (IsBounded ledger year n) (λ i. i.ledger_id ≡ ledger → i.invoice_number ≢ t)
          db.invoices
          (λ i b own taken.
            let bad =
              b (ground (arith, ==_refl ledger, starts_with-invoice_number year (suc n))) (suc n)
                (ground (arith, suffix_number-invoice_number year (suc n))) in
            omega (arith, bad))
          bounds,
      λ m e.
          let reached : m ≡ suc n = ground arith in
          All-append (IsBounded ledger year m) db'.invoices _
            (subst (All (IsBounded ledger year m)) (sym same)
              (IsBounded-le ledger year n m db.invoices (omega arith) bounds))
            (λ here k read. ground (arith, suffix_number-invoice_number year (suc n)), tt),
    )

next_known :
    (ledger year n : ℕ) (db db' : Sales) (t : Text)
    → last_no ledger year db ≡ some n
    → next_invoice_number ledger year db ≡ ok (t, db')
    → t ≡ invoice_number year (suc n)
unfolding next_invoice_number seeded
next_known ledger year n db db' t e h = ground arith

-- Two allocations for one ledger and year, with any change of the invoices between them, give
-- successive numbers: a void or deleted invoice leaves no gap in what is given out, and no number
-- is given out twice.
pub next_invoice_number-successor :
    (ledger year : ℕ) (db db' db'' : Sales) (t t' : Text) (invoices : List Invoice)
    → next_invoice_number ledger year db ≡ ok (t, db')
    → next_invoice_number ledger year (record db' { invoices = invoices }) ≡ ok (t', db'')
    → (n : ℕ) × (t ≡ invoice_number year n) × (t' ≡ invoice_number year (suc n))
unfolding last_no
next_invoice_number-successor ledger year db db' db'' t t' invoices h h' =
    let (n, text, last, _, _) = next_facts ledger year db db' t h in
    let next = record db' { invoices = invoices } in
    (suc n, text, next_known ledger year (suc n) next db'' t' last h')
