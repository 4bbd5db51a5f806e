-- ===== src/Posting/Balance.antt =====
-- Double entry: the postings of a written transaction are as many debits as credits, and no
-- operation of the service breaks that for any transaction.
use openaccounting.Prelude.{
  ℕ, suc, ◌+◌, Bool, List, [], ◌∷◌, ◌++◌, ◌≡◌, refl, ap, arith, ◌==◌, if◌then◌else◌, length,
  Option-cases, inl, inr, String,
}
use openaccounting.Prelude.Int.{ℤ, abs}
use openaccounting.Prelude.Tables.{delete}
use openaccounting.Prelude.Results.{ok, Result-cases}
use openaccounting.Prelude.Foreign.{Env}
use openaccounting.Posting.Data.{debit, credit, TxnLineInput, NewTransaction, Posting, Db}
use openaccounting.Posting.Checks.{
  is_debit, tally, check_balance, journal_total, derive_lines, effective_amounts, supplied,
  ledger_by,
}
use openaccounting.Posting.Write.{posting_rows}
use openaccounting.Posting.Create.{Plan, Ids, plan}
use openaccounting.Posting.Planned.{plan-Planned}

-- What a posting adds to the debits, and to the credits, of a transaction.
abbrev pub debit_of : ℕ → Posting → ℕ
debit_of t p =
    if p.transaction_id == t then elim p.direction [ debit ↦ p.amount | credit ↦ 0 ] else 0

abbrev pub credit_of : ℕ → Posting → ℕ
credit_of t p =
    if p.transaction_id == t then elim p.direction [ debit ↦ 0 | credit ↦ p.amount ] else 0

abbrev pub debit_sum : ℕ → List Posting → ℕ
debit_sum t [] = 0
debit_sum t (p ∷ ps) = debit_of t p + debit_sum t ps

abbrev pub credit_sum : ℕ → List Posting → ℕ
credit_sum t [] = 0
credit_sum t (p ∷ ps) = credit_of t p + credit_sum t ps

-- The postings filed under every transaction identifier balance.
abbrev pub IsBalanced : List Posting → Type 0
IsBalanced ps = (t : ℕ) → debit_sum t ps ≡ credit_sum t ps

-- Σ of the magnitudes of the negative amounts
abbrev pub credit_total : List ℤ → ℕ
credit_total [] = 0
credit_total (a ∷ as') = (if is_debit a then 0 else abs a) + credit_total as'

tally_sums :
    (as' : List ℤ) (d c : ℕ) → tally d c as' ≡ (d + journal_total as', c + credit_total as')
unfolding tally journal_total
tally_sums [] d c = ground arith
tally_sums (a ∷ as') d c = ground (
  arith,
  tally_sums as' (if is_debit a then d + abs a else d) (if is_debit a then c else c + abs a),
)

-- The balance check passes exactly when the debits are the credits.
pub check_balance-total :
    (as' : List ℤ) → check_balance as' ≡ ok tt → journal_total as' ≡ credit_total as'
unfolding check_balance
check_balance-total as' h = ground (arith, tally_sums as' 0 0)

pub length-supplied : (ls : List TxnLineInput) → length (supplied ls) ≡ length ls
length-supplied [] = refl
length-supplied (l ∷ ls) = ap suc (length-supplied ls)

pub length-derive_lines :
    (env : Env) (db : Db) (base : String) (date : ℕ) (ls : List TxnLineInput) (as' : List ℤ)
    → derive_lines env db base date ls ≡ ok as'
    → length as' ≡ length ls
unfolding derive_lines
length-derive_lines env db base date [] as' h = ground arith
length-derive_lines env db base date (l ∷ ls) as' h =
    elim (Result-cases (derive_lines env db base date ls)) [
      | inl (r, e) ↦ ground (arith, length-derive_lines env db base date ls r e)
      | inr (_, e) ↦ absurd (ground arith)
    ]

pub length-effective_amounts :
    (env : Env) (db : Db) (new : NewTransaction) (as' : List ℤ)
    → effective_amounts env db new ≡ ok as'
    → length as' ≡ length new.lines
unfolding effective_amounts
length-effective_amounts env db new as' h = elim (Option-cases (ledger_by new.ledger_id db)) [
  | inl missing ↦ ground (arith, length-supplied new.lines)
  | inr (l, e) ↦ ground (
    arith,
    length-supplied new.lines,
    length-derive_lines env db l.base_currency new.txn_date new.lines as',
  )
]

-- The rows of one transaction debit and credit it by the totals, and touch no other.
posting_rows_sums :
    (ids : ℕ → ℕ) (i txn t : ℕ) (ls : List TxnLineInput) (as' : List ℤ) (rows : List Posting)
    → posting_rows ids i txn ls as' ≡ ok rows
    → length as' ≡ length ls
    → (debit_sum t rows ≡ (if txn == t then journal_total as' else 0))
      × (credit_sum t rows ≡ (if txn == t then credit_total as' else 0))
unfolding posting_rows journal_total
posting_rows_sums ids i txn t [] [] rows h n = ground arith
posting_rows_sums ids i txn t [] (a ∷ as') rows h n = absurd (omega arith)
posting_rows_sums ids i txn t (l ∷ ls) [] rows h n = absurd (omega arith)
posting_rows_sums ids i txn t (l ∷ ls) (a ∷ as') rows h n =
    elim (Result-cases (posting_rows ids (suc i) txn ls as')) [
      | inl (rest, e) ↦ ground (arith, posting_rows_sums ids (suc i) txn t ls as' rest e)
      | inr (_, e) ↦ absurd (ground arith)
    ]

debit_sum-append :
    (t : ℕ) (ps qs : List Posting) → debit_sum t (ps ++ qs) ≡ debit_sum t ps + debit_sum t qs
debit_sum-append t [] qs = omega arith
debit_sum-append t (p ∷ ps) qs = omega (arith, debit_sum-append t ps qs)

credit_sum-append :
    (t : ℕ) (ps qs : List Posting) → credit_sum t (ps ++ qs) ≡ credit_sum t ps + credit_sum t qs
credit_sum-append t [] qs = omega arith
credit_sum-append t (p ∷ ps) qs = omega (arith, credit_sum-append t ps qs)

-- The rows that a plan adds balance under every identifier.
pub plan-IsBalanced :
    (env : Env) (ids : Ids) (new : NewTransaction) (is_draft : Bool) (db : Db) (p : Plan)
    → plan env ids new is_draft db ≡ ok p
    → IsBalanced p.postings
plan-IsBalanced env ids new is_draft db p h t =
    let w = plan-Planned env ids new is_draft db p h in
    ground (
      arith,
      posting_rows_sums ids.posting 0 ids.txn t new.lines w.amounts p.postings w.legs
          (length-effective_amounts env db new w.amounts w.effective),
      check_balance-total w.amounts w.balanced,
    )

pub append-IsBalanced :
    (ps qs : List Posting) → IsBalanced ps → IsBalanced qs → IsBalanced (ps ++ qs)
append-IsBalanced ps qs h k t =
    omega (arith, debit_sum-append t ps qs, credit_sum-append t ps qs, h t, k t)

-- Deleting the postings of one transaction leaves those of the others.
delete_sums :
    (txn t : ℕ) (ps : List Posting)
    → (debit_sum t (delete (λ p. p.transaction_id == txn) ps)
        ≡ (if txn == t then 0 else debit_sum t ps))
      × (credit_sum t (delete (λ p. p.transaction_id == txn) ps)
          ≡ (if txn == t then 0 else credit_sum t ps))
delete_sums txn t [] = ground arith
delete_sums txn t (p ∷ ps) = ground (arith, delete_sums txn t ps)

pub delete-IsBalanced :
    (txn : ℕ) (ps : List Posting)
    → IsBalanced ps
    → IsBalanced (delete (λ p. p.transaction_id == txn) ps)
delete-IsBalanced txn ps h t = ground (arith, delete_sums txn t ps, h t)
