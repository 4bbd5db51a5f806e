-- ===== src/Reports/TrialTotals.antt =====
-- What the totals of the trial balance are, and what they do not depend on.
use openaccounting.Prelude.{
  ℕ, String, Bool, List, [], ◌∷◌, map, ◌≡◌, refl, ap, arith, if◌then◌else◌, Bool-cases, inl, inr,
  ◌∙◌, sym,
}
use openaccounting.Prelude.Int.{ℤ, pos, sub_ℕ, ◌+ℤ◌, ◌-ℤ◌, leb_ℤ, eqb_ℤ, int_laws, parts}
use openaccounting.Prelude.Sums.{sum, sum_ℤ, sum_ℤ-map, order_by}
use openaccounting.Prelude.Foreign.{Env}
use openaccounting.Posting.Data.{Posting, Db}
use openaccounting.Posting.History.{History}
use openaccounting.Reports.Data.{
  Account, AccountNet, DimensionFilter, empty, is_active, debit_amount, credit_amount, postings_of,
  account_net, accounts_of,
}
use openaccounting.Reports.TrialBalance.{
  is_debit_normal, columns, Totals, add_row, add_rows, net_rows, build_trial_balance_filtered,
  build_trial_balance,
}
use openaccounting.Reports.LedgerBalance.{IsKeyed, IsLedgerBalanced, History-IsLedgerBalanced}
use openaccounting.Reports.GrandTotal.{scoped, account_net-net, nets_zero}

-- The net movement against the normal side of an account, which neither column shows.
abbrev pub abnormal : AccountNet → ℤ
abnormal n =
    if is_debit_normal n.account.type_str
    then (if leb_ℤ n.net (pos 0) then n.net else pos 0)
    else (if leb_ℤ n.net (pos 0) then pos 0 else n.net)

-- The columns and the abnormal part of an account make its net movement.
columns-abnormal :
    (n : AccountNet)
    → (columns n.account.type_str n.net).0 +ℤ abnormal n
      ≡ (columns n.account.type_str n.net).1 +ℤ n.net
unfolding ◌+ℤ◌ ◌-ℤ◌
columns-abnormal n = elim (Bool-cases (is_debit_normal n.account.type_str)) [
  | inl here ↦ ground arith
  | inr there ↦ ground arith
]

columns_zero : (ty : String) → columns ty (pos 0) ≡ (pos 0, pos 0)
unfolding ◌-ℤ◌
columns_zero ty = ground arith

plus_zero : (x : ℤ) → x ≡ x +ℤ pos 0
plus_zero x = omega int_laws

-- A row that is passed over would have added nothing.
add_row-columns :
    (n : AccountNet) (acc : Totals)
    → ((add_row n acc).total_dr ≡ acc.total_dr +ℤ (columns n.account.type_str n.net).0)
      × ((add_row n acc).total_cr ≡ acc.total_cr +ℤ (columns n.account.type_str n.net).1)
unfolding add_row
add_row-columns n acc = elim (Bool-cases (eqb_ℤ n.net (pos 0))) [
  | inl nothing ↦
      let zero_net : n.net ≡ pos 0 = ground arith in
      rw (nothing, zero_net, columns_zero n.account.type_str)
        (plus_zero acc.total_dr, plus_zero acc.total_cr)
  | inr something ↦ rw something (refl, refl)
]

add_rows-columns :
    (ns : List AccountNet) (acc : Totals)
    → ((add_rows ns acc).total_dr +ℤ sum_ℤ abnormal ns) +ℤ acc.total_cr
      ≡ ((add_rows ns acc).total_cr +ℤ acc.total_dr) +ℤ sum_ℤ (λ n. n.net) ns
unfolding add_rows
add_rows-columns [] acc = omega int_laws
add_rows-columns (n ∷ ns) acc = omega (
  int_laws,
  parts (columns-abnormal n),
  parts (add_row-columns n acc).0,
  parts (add_row-columns n acc).1,
  parts (add_rows-columns ns (add_row n acc)),
)

-- Every trial balance of a ledger whose books balance: what the columns differ by is what the
-- accounts with an abnormal balance hide.
build_trial_balance-abnormal :
    (before : Account → Account → Bool) (db : Db) (as' : List Account) (l as_of : ℕ)
    → IsKeyed (map scoped as')
    → IsLedgerBalanced l (map scoped as') db.postings
    → (build_trial_balance before db as' l as_of).total_debit
        +ℤ sum_ℤ abnormal (net_rows before db as' l as_of empty)
      ≡ (build_trial_balance before db as' l as_of).total_credit
unfolding build_trial_balance build_trial_balance_filtered net_rows
build_trial_balance-abnormal before db as' l as_of k b =
    let rows = order_by before (accounts_of l as') in
    omega (
      int_laws,
      parts (
          add_rows-columns (map (account_net db as_of empty) rows)
            (record { out_rows = []; total_dr = pos 0; total_cr = pos 0 })),
      parts (sum_ℤ-map (λ n. n.net) (account_net db as_of empty) rows),
      parts (nets_zero before db as' l as_of k b),
    )

-- If the identifiers of the accounts are unique and the postings on the accounts of a ledger
-- balanced at first, then in its trial balance after any sequence of successful calls of the
-- posting service, at any date and in any order of the rows, the debits and the net movements of
-- the accounts with an abnormal balance add up to the credits.
pub build_trial_balance-totals :
    (env : Env) (before : Account → Account → Bool) (db db' : Db) (as' : List Account) (l as_of : ℕ)
    → History env db db'
    → db.accounts ≡ map scoped as'
    → IsKeyed db.accounts
    → IsLedgerBalanced l db.accounts db.postings
    → (build_trial_balance before db' as' l as_of).total_debit
        +ℤ sum_ℤ abnormal (net_rows before db' as' l as_of empty)
      ≡ (build_trial_balance before db' as' l as_of).total_credit
build_trial_balance-totals env before db db' as' l as_of h same k b =
    build_trial_balance-abnormal before db' as' l as_of (rw (sym same) k)
      (rw (sym same) (History-IsLedgerBalanced l h k b).1)

same_net :
    (db db' : Db) (d d' : ℕ) (f : DimensionFilter) (a : Account)
    → db.postings ≡ db'.postings
    → account_net db d f a ≡ account_net db' d' f a
unfolding account_net
same_net db db' d d' f a same =
    let net_of = λ (ps : List Posting).
      sub_ℕ (sum debit_amount (postings_of f a.id ps))
        (sum credit_amount (postings_of f a.id ps)) in
    let e : (account_net db d f a).net ≡ (account_net db' d' f a).net =
      account_net-net db d f a ∙ ap net_of same ∙ sym (account_net-net db' d' f a) in
    ap (λ z. record { account = a; net = z }) e

same_nets :
    (db db' : Db) (d d' : ℕ) (f : DimensionFilter) (rows : List Account)
    → db.postings ≡ db'.postings
    → map (account_net db d f) rows ≡ map (account_net db' d' f) rows
same_nets db db' d d' f [] same = refl
same_nets db db' d d' f (a ∷ rows) same =
    rw (same_net db db' d d' f a same, same_nets db db' d d' f rows same) refl

-- Two databases with the same postings have the same trial balance without a dimension filter,
-- whatever their transactions are, and at whatever dates the two reports are drawn up.
pub build_trial_balance_any_date :
    (before : Account → Account → Bool) (db db' : Db) (as' : List Account) (l d d' : ℕ)
    → db.postings ≡ db'.postings
    → build_trial_balance before db as' l d ≡ build_trial_balance before db' as' l d'
unfolding build_trial_balance build_trial_balance_filtered net_rows is_active
build_trial_balance_any_date before db db' as' l d d' same =
    rw (same_nets db db' d d' empty (order_by before (accounts_of l as')) same) refl
