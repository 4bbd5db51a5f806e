-- ===== src/Reports/Period.antt =====
-- The entries of the general ledger for a period are as many debits as credits.
use openaccounting.Prelude.{
  ℕ, Bool, true, false, Option, some, none, List, [], ◌∷◌, ◌==◌, ◌≡◌, refl, arith, if◌then◌else◌,
  All, Bool-cases, Option-cases, inl, inr, ◌∙◌, sym,
}
use openaccounting.Prelude.Tables.{find, select, exists}
use openaccounting.Prelude.Sums.{sum, sum-map, sum-order_by, order_by}
use openaccounting.Prelude.Foreign.{Env}
use openaccounting.Posting.Data.{Txn, Posting, Db}
use openaccounting.Posting.Balance.{debit_sum, credit_sum, IsBalanced}
use openaccounting.Posting.History.{History, History-IsBalanced}
use openaccounting.Reports.Data.{Account, debit_amount, credit_amount}
use openaccounting.Reports.GeneralLedger.{
  JournalRow, entry, entry_debit, entry_credit, txn_of, journal_rows, build_general_ledger,
}
use openaccounting.Reports.GrandTotal.{IsBalanced-sum}

-- Every posting is on an account that exists, as the foreign key demands.
abbrev pub IsOnAccounts : List Account → List Posting → Type 0
IsOnAccounts accounts ps =
    All (λ (p : Posting). exists (λ (a : Account). a.id == p.account_id) accounts ≡ true) ps

abbrev is_some : Option Txn → Bool
is_some none = false
is_some (some t) = true

-- A selection of whole transactions balances as they do.
select_txns :
    (q : ℕ → Bool) (t : ℕ) (ps : List Posting)
    → (debit_sum t (select (λ p. q p.transaction_id) ps) ≡ (if q t then debit_sum t ps else 0))
      × (credit_sum t (select (λ p. q p.transaction_id) ps) ≡ (if q t then credit_sum t ps else 0))
select_txns q t [] = ground arith
select_txns q t (p ∷ ps) = elim (Bool-cases (p.transaction_id == t)) [
  | inl here ↦
      let e : p.transaction_id ≡ t = ground arith in
      let rest = select_txns q t ps in
      elim (Bool-cases (q t)) [
        | inl taken ↦ let taken' : q p.transaction_id ≡ true = rw e taken in ground (arith, rest)
        | inr left ↦ let left' : q p.transaction_id ≡ false = rw e left in ground (arith, rest)
      ]
  | inr other ↦ let rest = select_txns q t ps in ground (arith, rest)
]

select-IsBalanced :
    (q : ℕ → Bool) (ps : List Posting)
    → IsBalanced ps
    → IsBalanced (select (λ p. q p.transaction_id) ps)
select-IsBalanced q ps b t = let sums = select_txns q t ps in ground (arith, sums, b t)

find-exists :
    (q : Account → Bool) (as' : List Account)
    → exists q as' ≡ true
    → (a : Account) × (find q as' ≡ some a)
find-exists q [] h = absurd (ground arith)
find-exists q (a ∷ as') h = elim (Bool-cases (q a)) [
  | inl here ↦ (a, rw here refl)
  | inr later ↦ let (b, found) = find-exists q as' (ground (arith, later, h)) in (b, rw later found)
]

journal_rows-sum :
    (d : Posting → ℕ) (ts : List Txn) (as' : List Account) (l from to : ℕ) (ps : List Posting)
    → IsOnAccounts as' ps
    → sum (λ (r : JournalRow). d r.p) (journal_rows ts as' l from to none ps)
      ≡ sum d (select (λ p. is_some (txn_of ts l from to p.transaction_id)) ps)
unfolding journal_rows
journal_rows-sum d ts as' l from to [] h = refl
journal_rows-sum d ts as' l from to (p ∷ ps) h =
    let (a, found) = find-exists (λ a. a.id == p.account_id) as' h.0 in
    let rest = journal_rows-sum d ts as' l from to ps h.1 in
    elim (Option-cases (txn_of ts l from to p.transaction_id)) [
      | inl missing ↦ rw missing rest
      | inr (t, e) ↦ rw (e, found) (omega (arith, rest))
    ]

-- If the stored postings balance under every transaction identifier, then after any sequence of
-- successful calls of the posting service, if every posting is on an account that exists, the
-- entries of the general ledger for any ledger and any period, without an account filter and in
-- any order, have equal debits and credits.
pub build_general_ledger-balanced :
    (env : Env) (before : JournalRow → JournalRow → Bool) (db db' : Db) (as' : List Account)
    (l from to : ℕ)
    → History env db db'
    → IsBalanced db.postings
    → IsOnAccounts as' db'.postings
    → sum entry_debit (build_general_ledger before db' as' l from to none).0
      ≡ sum entry_credit (build_general_ledger before db' as' l from to none).0
unfolding build_general_ledger
build_general_ledger-balanced env before db db' as' l from to h b on =
    let rows = journal_rows db'.transactions as' l from to none db'.postings in
    let q = λ (id : ℕ). is_some (txn_of db'.transactions l from to id) in
    let taken = select (λ (p : Posting). q p.transaction_id) db'.postings in
    sum-map entry_debit entry (order_by before rows)
    ∙ sum-order_by (λ (r : JournalRow). debit_amount r.p) before rows
    ∙ journal_rows-sum debit_amount db'.transactions as' l from to db'.postings on
    ∙ IsBalanced-sum taken (select-IsBalanced q db'.postings (History-IsBalanced h b))
    ∙ sym (journal_rows-sum credit_amount db'.transactions as' l from to db'.postings on)
    ∙ sym (sum-order_by (λ (r : JournalRow). credit_amount r.p) before rows)
    ∙ sym (sum-map entry_credit entry (order_by before rows))
