-- ===== src/Reports/GrandTotal.antt =====
-- Every posting on the accounts of a ledger is in the net movement of one of them, so that the net
-- movements add up to nothing.
use openaccounting.Prelude.{
  ℕ, zero, suc, ◌+◌, ◌<◌, Bool, false, List, [], ◌∷◌, map, ◌≡◌, refl, arith, ltb, ◌==◌,
  if◌then◌else◌, Bool-cases, inl, inr, ◌∙◌, sym,
}
use openaccounting.Prelude.Int.{pos, sub_ℕ}
use openaccounting.Prelude.Tables.{select, exists}
use openaccounting.Prelude.Sums.{
  sum, sum_ℤ, sum-sum, sum_same, sum-select, sum-order_by, sum_ℤ_same, sum_ℤ-sub_ℕ, order_by,
}
use openaccounting.Posting.Data.{Scoped, Posting, Txn, Db}
use openaccounting.Posting.Checks.{in_scope}
use openaccounting.Posting.Balance.{debit_sum, credit_sum, IsBalanced}
use openaccounting.Reports.Data.{
  Account, DimensionFilter, empty, JoinedRow, debit_amount, credit_amount, left_join, raw_net,
  postings_of, accounts_of, account_net,
}
use openaccounting.Reports.LedgerBalance.{IsKeyed, is_on, IsLedgerBalanced}

-- The numbers below a bound, and a bound of the identifiers in a table.
abbrev upto : ℕ → List ℕ
upto zero = []
upto (suc n) = n ∷ upto n

abbrev id_bound : List Posting → ℕ
id_bound [] = 0
id_bound (p ∷ ps) = suc p.transaction_id + id_bound ps

-- What a posting adds to the sum of its transaction.
abbrev part : (Posting → ℕ) → ℕ → Posting → ℕ
part d t p = if p.transaction_id == t then d p else 0

part-upto :
    (d : Posting → ℕ) (p : Posting) (n : ℕ)
    → sum (λ t. part d t p) (upto n) ≡ (if ltb p.transaction_id n then d p else 0)
part-upto d p zero = ground arith
part-upto d p (suc n) = ground (arith, part-upto d p n)

parts_bounded :
    (d : Posting → ℕ) (n : ℕ) (ps : List Posting)
    → id_bound ps < suc n
    → sum (λ p. if ltb p.transaction_id n then d p else 0) ps ≡ sum d ps
parts_bounded d n [] h = refl
parts_bounded d n (p ∷ ps) h = ground (arith, parts_bounded d n ps (omega arith))

-- The sum of a table is the sum over its transactions.
sum_by_txn :
    (d : Posting → ℕ) (ps : List Posting)
    → sum (λ t. sum (part d t) ps) (upto (id_bound ps)) ≡ sum d ps
sum_by_txn d ps =
    sum-sum (part d) (upto (id_bound ps)) ps
    ∙ sum_same (λ p. sum (λ t. part d t p) (upto (id_bound ps)))
        (λ p. if ltb p.transaction_id (id_bound ps) then d p else 0) ps
        (λ p. part-upto d p (id_bound ps))
    ∙ parts_bounded d (id_bound ps) ps (omega arith)

debit_sum-sum : (t : ℕ) (ps : List Posting) → debit_sum t ps ≡ sum (part debit_amount t) ps
debit_sum-sum t [] = refl
debit_sum-sum t (p ∷ ps) = omega (arith, debit_sum-sum t ps)

credit_sum-sum : (t : ℕ) (ps : List Posting) → credit_sum t ps ≡ sum (part credit_amount t) ps
credit_sum-sum t [] = refl
credit_sum-sum t (p ∷ ps) = omega (arith, credit_sum-sum t ps)

-- Postings that balance in every transaction balance as a whole.
pub IsBalanced-sum :
    (ps : List Posting) → IsBalanced ps → sum debit_amount ps ≡ sum credit_amount ps
IsBalanced-sum ps b =
    sym (sum_by_txn debit_amount ps)
    ∙ sum_same (λ t. sum (part debit_amount t) ps) (λ t. sum (part credit_amount t) ps)
        (upto (id_bound ps)) (λ t. sym (debit_sum-sum t ps) ∙ b t ∙ credit_sum-sum t ps)
    ∙ sum_by_txn credit_amount ps

abbrev pub scoped : Account → Scoped
scoped a = record { id = a.id; ledger_id = a.ledger_id }

-- A row is counted under the one account of the ledger that has its identifier.
absent_account :
    (c id ledger : ℕ) (as' : List Account)
    → exists (λ (b : Scoped). b.id == id) (map scoped as') ≡ false
    → sum (λ (a : Account). if id == a.id then c else 0) (accounts_of ledger as') ≡ 0
absent_account c id ledger [] h = refl
absent_account c id ledger (a ∷ as') h = ground (arith, absent_account c id ledger as')

one_account :
    (c id ledger : ℕ) (as' : List Account)
    → IsKeyed (map scoped as')
    → sum (λ (a : Account). if id == a.id then c else 0) (accounts_of ledger as')
      ≡ (if in_scope id ledger (map scoped as') then c else 0)
one_account c id ledger [] k = refl
one_account c id ledger (a ∷ as') k = elim (Bool-cases (a.id == id)) [
  | inl same ↦
      let e : a.id ≡ id = ground arith in
      let first : exists (λ (b : Scoped). b.id == id) (map scoped as') ≡ false = rw (sym e) k.0 in
      ground (arith, absent_account c id ledger as' first, one_account c id ledger as' k.1)
  | inr other ↦ ground (arith, one_account c id ledger as' k.1)
]

-- The amounts on the accounts of a ledger, account by account or posting by posting.
ledger_amount :
    (d : Posting → ℕ) (l : ℕ) (as' : List Account) (ps : List Posting)
    → IsKeyed (map scoped as')
    → sum (λ (a : Account). sum d (postings_of empty a.id ps)) (accounts_of l as')
      ≡ sum d (select (is_on l (map scoped as')) ps)
ledger_amount d l as' ps k =
    sum_same (λ (a : Account). sum d (postings_of empty a.id ps))
      (λ (a : Account). sum (λ p. if p.account_id == a.id then d p else 0) ps) (accounts_of l as')
      (λ a. on_account a.id ps)
    ∙ sum-sum (λ (a : Account) (p : Posting). if p.account_id == a.id then d p else 0)
        (accounts_of l as') ps
    ∙ sum_same
        (λ p. sum (λ (a : Account). if p.account_id == a.id then d p else 0) (accounts_of l as'))
        (λ p. if is_on l (map scoped as') p then d p else 0) ps
        (λ p. one_account (d p) p.account_id l as' k)
    ∙ sym (sum-select d (is_on l (map scoped as')) ps)
  where
    on_account :
        (id : ℕ) (qs : List Posting)
        → sum d (postings_of empty id qs) ≡ sum (λ p. if p.account_id == id then d p else 0) qs
    on_account id [] = refl
    on_account id (q ∷ qs) = ground (arith, on_account id qs)

-- The join with the transactions changes no sum.
pub sum-left_join :
    (d : Posting → ℕ) (as_of : ℕ) (ts : List Txn) (ps : List Posting)
    → sum (λ (r : JoinedRow). d r.p) (left_join as_of ts ps) ≡ sum d ps
unfolding left_join
sum-left_join d as_of ts [] = refl
sum-left_join d as_of ts (p ∷ ps) = omega (arith, sum-left_join d as_of ts ps)

-- The net movement of an account is that of all its postings in the filter.
pub account_net-net :
    (db : Db) (as_of : ℕ) (f : DimensionFilter) (a : Account)
    → (account_net db as_of f a).net
      ≡ sub_ℕ
          (sum debit_amount (postings_of f a.id db.postings))
          (sum credit_amount (postings_of f a.id db.postings))
unfolding account_net raw_net
account_net-net db as_of f a =
    rw
      (
        sum-left_join debit_amount as_of db.transactions (postings_of f a.id db.postings),
        sum-left_join credit_amount as_of db.transactions (postings_of f a.id db.postings),
      )
      refl

-- What the accounts of a ledger net to, in any order, if the ledger balances.
pub nets_zero :
    (before : Account → Account → Bool) (db : Db) (as' : List Account) (l as_of : ℕ)
    → IsKeyed (map scoped as')
    → IsLedgerBalanced l (map scoped as') db.postings
    → sum_ℤ (λ a. (account_net db as_of empty a).net) (order_by before (accounts_of l as')) ≡ pos 0
nets_zero before db as' l as_of k b =
    let amount = λ (d : Posting → ℕ) (a : Account). sum d (postings_of empty a.id db.postings) in
    let rows = order_by before (accounts_of l as') in
    sum_ℤ_same (λ a. (account_net db as_of empty a).net)
      (λ a. sub_ℕ (amount debit_amount a) (amount credit_amount a)) rows
      (account_net-net db as_of empty)
    ∙ sum_ℤ-sub_ℕ (amount debit_amount) (amount credit_amount) rows
    ∙ ground (
      arith,
      sum-order_by (amount debit_amount) before (accounts_of l as'),
      sum-order_by (amount credit_amount) before (accounts_of l as'),
      ledger_amount debit_amount l as' db.postings k,
      ledger_amount credit_amount l as' db.postings k,
      IsBalanced-sum (select (is_on l (map scoped as')) db.postings) b,
    )
