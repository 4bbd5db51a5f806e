-- ===== src/Claims/Trigger.antt =====
-- INSERT INTO postings, with the constraint CHECK (amount > 0) and the trigger
-- `check_posting_balance` (`migrations/0001_init.sql`). While the trigger is enabled it runs after
-- each inserted row; whether it is, is an argument.
use openaccounting.Prelude.{ℕ, Bool, ◌&&◌, not, List, [], ◌∷◌, leb, ◌==◌}
use openaccounting.Prelude.Int.{ℤ, pos, leb_ℤ, eqb_ℤ}
use openaccounting.Prelude.Tables.{select, count}
use openaccounting.Prelude.Sums.{sum_ℤ}
use openaccounting.Prelude.Results.{Result, ok, ◌>>=◌, ◌>>◌, fail_if}
use openaccounting.Posting.Data.{Direction, debit, credit}
use openaccounting.Claims.Data.{Posting}
use openaccounting.Claims.Access.{Error}

abbrev pub posting_of : ℕ → Posting → Bool
posting_of txn p = p.transaction_id == txn

abbrev pub debit_of : Direction → ℤ → ℤ
debit_of debit a = a
debit_of credit a = pos 0

abbrev pub credit_of : Direction → ℤ → ℤ
credit_of debit a = pos 0
credit_of credit a = a

abbrev pub debit_amount : Posting → ℤ
debit_amount p = debit_of p.direction p.amount

abbrev pub credit_amount : Posting → ℤ
credit_amount p = credit_of p.direction p.amount

-- What the trigger raises an exception on.
unfoldable pub check_posting_balance : ℕ → List Posting → Bool
check_posting_balance txn postings =
    let rows = select (posting_of txn) postings in
    leb 2 (count (posting_of txn) postings)
    && not (eqb_ℤ (sum_ℤ debit_amount rows) (sum_ℤ credit_amount rows))

unfoldable pub insert_posting : Bool → Posting → List Posting → Result Error (List Posting)
unfolding check_posting_balance
insert_posting enabled p postings = do
  fail_if (leb_ℤ p.amount (pos 0)) Error.refused
  fail_if (enabled && check_posting_balance p.transaction_id (p ∷ postings)) Error.refused
  ok (p ∷ postings)

-- INSERT statements, one after the other.
unfoldable pub insert_postings : Bool → List Posting → List Posting → Result Error (List Posting)
unfolding insert_posting
insert_postings enabled [] postings = ok postings
insert_postings enabled (p ∷ ps) postings =
    insert_posting enabled p postings >>= insert_postings enabled ps
