-- ===== src/Posting/Legs.antt =====
-- The postings of a written transaction: positive, on accounts and dimensions of its own ledger.
use openaccounting.Prelude.{
  ℕ, suc, ◌<◌, ◌≤◌, true, false, List, [], ◌∷◌, ◌++◌, ◌≡◌, refl, arith, ◌==◌, inl, inr, some, none,
  Option, if◌then◌else◌, All, length, Bool-cases,
}
use openaccounting.Prelude.Int.{ℤ, abs}
use openaccounting.Prelude.Tables.{exists}
use openaccounting.Prelude.Results.{ok, err, Result-cases}
use openaccounting.Prelude.Foreign.{Env}
use openaccounting.Posting.Data.{
  TxnLineInput, NewTransaction, CreatedTransaction, Error, wrong_ledger, unknown_account,
  unknown_cost_center, unknown_project, Posting, Scoped, Db,
}
use openaccounting.Posting.Checks.{in_scope, check_accounts, check_dimension, check_dimensions}
use openaccounting.Posting.Write.{posting_row, posting_rows}
use openaccounting.Posting.Create.{Ids, apply, create}
use openaccounting.Posting.Planned.{plan-Planned}
use openaccounting.Posting.Balance.{length-effective_amounts}
use openaccounting.Posting.History.{create_with_kind-plan}
use openaccounting.Posting.Bypass.{plan-txn}

-- An optional dimension is absent or in the ledger.
abbrev pub IsScoped : List Scoped → ℕ → Option ℕ → Type 0
IsScoped rows ledger none = Unit
IsScoped rows ledger (some id) = in_scope id ledger rows ≡ true

-- A posting that `create` may write for a transaction `txn` of `ledger`.
pub record IsLeg (db : Db) (ledger txn : ℕ) (p : Posting) : Type 0 where
  pub filed : p.transaction_id ≡ txn
  pub positive : 0 < p.amount
  pub account : in_scope p.account_id ledger db.accounts ≡ true
  pub cost_center : IsScoped db.cost_centers ledger p.cost_center_id
  pub project : IsScoped db.projects ledger p.project_id

check_dimension-IsScoped :
    (rows : List Scoped) (ledger : ℕ) (o : Option ℕ) (bad : ℕ → Error)
    → check_dimension rows ledger o bad ≡ ok tt
    → IsScoped rows ledger o
check_dimension-IsScoped rows ledger none bad h = tt
check_dimension-IsScoped rows ledger (some id) bad h = ground arith

row_IsLeg :
    (db : Db) (ledger id txn : ℕ) (l : TxnLineInput) (x : ℤ)
    → (abs x == 0) ≡ false
    → in_scope l.account_id ledger db.accounts ≡ true
    → IsScoped db.cost_centers ledger l.cost_center_id
    → IsScoped db.projects ledger l.project_id
    → IsLeg db ledger txn (posting_row id txn l x)
unfolding posting_row
row_IsLeg db ledger id txn l x h a cc' pr = record {
  filed = refl;
  positive = ground arith;
  account = a;
  cost_center = cc';
  project = pr;
}

length-posting_rows :
    (ids : ℕ → ℕ) (i txn : ℕ) (ls : List TxnLineInput) (as' : List ℤ) (rows : List Posting)
    → posting_rows ids i txn ls as' ≡ ok rows
    → length as' ≡ length ls
    → length rows ≡ length ls
unfolding posting_rows
length-posting_rows ids i txn [] [] rows h n = ground arith
length-posting_rows ids i txn [] (a ∷ as') rows h n = absurd (omega arith)
length-posting_rows ids i txn (l ∷ ls) [] rows h n = absurd (omega arith)
length-posting_rows ids i txn (l ∷ ls) (a ∷ as') rows h n =
    elim (Result-cases (posting_rows ids (suc i) txn ls as')) [
      | inl (rest, e) ↦ ground (arith, length-posting_rows ids (suc i) txn ls as' rest e)
      | inr (_, e) ↦ absurd (ground arith)
    ]

pub posting_rows-IsLeg :
    (db : Db) (ledger : ℕ) (ids : ℕ → ℕ) (i txn : ℕ) (ls : List TxnLineInput) (as' : List ℤ)
    (rows : List Posting)
    → posting_rows ids i txn ls as' ≡ ok rows
    → check_accounts db ledger ls ≡ ok tt
    → check_dimensions db ledger ls ≡ ok tt
    → All (IsLeg db ledger txn) rows
unfolding posting_rows check_accounts check_dimensions
posting_rows-IsLeg db ledger ids i txn [] as' rows h a d =
    let e : rows ≡ [] = ground arith in rw e tt
posting_rows-IsLeg db ledger ids i txn (l ∷ ls) [] rows h a d =
    let e : rows ≡ [] = ground arith in rw e tt
posting_rows-IsLeg db ledger ids i txn (l ∷ ls) (x ∷ as') rows h a d =
    elim (Result-cases (posting_rows ids (suc i) txn ls as')) [
      | inr (_, failed) ↦ absurd (ground arith)
      | inl (rest, found) ↦
          let e : rows ≡ posting_row (ids i) txn l x ∷ rest = ground arith in
          rw e (
            row_IsLeg db ledger (ids i) txn l x (ground arith) (ground arith)
                (check_dimension-IsScoped db.cost_centers ledger l.cost_center_id
                  unknown_cost_center (ground arith))
                (check_dimension-IsScoped db.projects ledger l.project_id unknown_project
                  (ground arith)),
            posting_rows-IsLeg db ledger ids (suc i) txn ls as' rest found (ground arith)
                (ground arith),
          )
    ]

-- If `create` succeeds, then at least two postings were added to the database, one for each line
-- of the request, and each of them is filed under the new transaction, has a positive amount, and
-- is on an account, and on a cost centre and a project where it names them, of the ledger of the
-- request.
pub create-IsLeg :
    (env : Env) (ids : Ids) (new : NewTransaction) (db : Db) (c : CreatedTransaction) (db' : Db)
    → create env ids new db ≡ ok (c, db')
    → (rows : List Posting) × (db'.postings ≡ db.postings ++ rows)
      × (length rows ≡ length new.lines)
      × (2 ≤ length rows)
      × All (IsLeg db new.ledger_id c.id) rows
unfolding create apply
create-IsLeg env ids new db c db' h =
    let (p, planned, same, out) = create_with_kind-plan env ids new false db c db' h in
    let w = plan-Planned env ids new false db p planned in
    let id = (plan-txn env ids new false db p planned).0 in
    let same_id : c.id ≡ ids.txn = ground arith in
    let n =
      length-posting_rows ids.posting 0 ids.txn new.lines w.amounts p.postings w.legs
        (length-effective_amounts env db new w.amounts w.effective) in
    let enough = w.enough in
    (
      p.postings,
      ground arith,
      n,
      ground arith,
      rw same_id (
          posting_rows-IsLeg db new.ledger_id ids.posting 0 ids.txn new.lines w.amounts p.postings
            w.legs w.accounts w.dimensions),
    )

-- The account check names the first account that is not in the ledger: one that is in another
-- ledger by `wrong_ledger`, one that does not exist by `unknown_account`.
pub check_accounts-error :
    (db : Db) (ledger : ℕ) (ls : List TxnLineInput) (e : Error)
    → check_accounts db ledger ls ≡ err e
    → (a : ℕ) × (in_scope a ledger db.accounts ≡ false)
      × (e ≡ (
          if exists (λ (r : Scoped). r.id == a) db.accounts
          then wrong_ledger a
          else unknown_account a))
unfolding check_accounts
check_accounts-error db ledger [] e h = absurd (ground arith)
check_accounts-error db ledger (l ∷ ls) e h =
    elim (Bool-cases (in_scope l.account_id ledger db.accounts)) [
      | inl known ↦ check_accounts-error db ledger ls e (ground arith)
      | inr missing ↦ (l.account_id, missing, ground arith)
    ]
