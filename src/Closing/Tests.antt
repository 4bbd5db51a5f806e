-- ===== src/Closing/Tests.antt =====
-- The theorems about invoice numbers at concrete tables.
use openaccounting.Prelude.{ℕ, [], ◌∷◌, ◌++◌, ◌≡◌, ◌≢◌, refl, All}
use openaccounting.Prelude.Texts.{show, parse}
use openaccounting.Closing.Numbering.{
  Invoice, Sales, max_suffix, last_no, invoice_number, next_invoice_number,
}
use openaccounting.Closing.Gapless.{IsSeeded, next_invoice_number-IsSeeded}

-- Invoices 2026-0041 and 2025-0099 of ledger 1, with no sequence yet.
abbrev sales : Sales
sales = record {
  invoices =
      record { ledger_id = 1; invoice_number = 50 ∷ 48 ∷ 50 ∷ 54 ∷ 45 ∷ 48 ∷ 48 ∷ 52 ∷ 49 ∷ [] }
      ∷ record { ledger_id = 1; invoice_number = 50 ∷ 48 ∷ 50 ∷ 53 ∷ 45 ∷ 48 ∷ 48 ∷ 57 ∷ 57 ∷ [] }
      ∷ [];
  sequences = [];
}

abbrev sequence : ℕ → Sales
sequence n = record sales { sequences = record { ledger_id = 1; year = 2026; last_no = n } ∷ [] }

sales-IsSeeded : IsSeeded 1 2026 sales
unfolding last_no
sales-IsSeeded n e = cc

next_invoice_number-IsSeeded_example :
    All
      (λ (i : Invoice). i.ledger_id ≡ 1 → i.invoice_number ≢ invoice_number 2026 42)
      sales.invoices
    × IsSeeded 1 2026 (record (sequence 42) {
      invoices =
          sales.invoices ++ record { ledger_id = 1; invoice_number = invoice_number 2026 42 } ∷ [];
    })
unfolding next_invoice_number max_suffix last_no show parse
next_invoice_number-IsSeeded_example =
    next_invoice_number-IsSeeded 1 2026 sales (sequence 42) (invoice_number 2026 42) sales-IsSeeded
      refl
