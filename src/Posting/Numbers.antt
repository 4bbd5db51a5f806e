-- ===== src/Posting/Numbers.antt =====
-- Transaction numbers: `{year}-{NNNNNN}`, counted from the rows that the year has, or the user's.
use openaccounting.Prelude.{
  ℕ, ◌+◌, true, false, not, ◌≡◌, ◌≢◌, arith, ◌==◌, inl, inr, some, none, Option-cases, ◌&&◌,
}
use openaccounting.Prelude.Tables.{exists, count, delete, exists-delete, count-delete}
use openaccounting.Prelude.Results.{ok}
use openaccounting.Prelude.Texts.{Text}
use openaccounting.Prelude.Foreign.{Env}
use openaccounting.Posting.Data.{NewTransaction, CreatedTransaction, Db, Txn}
use openaccounting.Posting.Checks.{has_number, in_year, format_number, user_number, resolve_number}
use openaccounting.Posting.Write.{insert_transaction}
use openaccounting.Posting.Create.{Ids, create}
use openaccounting.Posting.Journal.{delete_draft}
use openaccounting.Posting.Planned.{plan-Planned}
use openaccounting.Posting.History.{create_with_kind-plan}

-- The number that `create` gives: the user's, trimmed, or the next of the count.
abbrev pub next_number : Env → Db → NewTransaction → Text
next_number env db new =
    format_number (env.year_of new.txn_date)
      (count (in_year env new.ledger_id (env.year_of new.txn_date)) db.transactions + 1)

abbrev pub given_number : Env → Db → NewTransaction → Text
given_number env db new = elim (user_number new.number) [
  | none ↦ next_number env db new
  | some n ↦ n
]

-- If `create` succeeds, the transaction has the user's number, trimmed, or, if the user gave none
-- or a blank one, the count of the ledger's transactions of the year plus one; and no transaction
-- of the ledger and the year had that number before.
pub create-number :
    (env : Env) (ids : Ids) (new : NewTransaction) (db : Db) (c : CreatedTransaction) (db' : Db)
    → create env ids new db ≡ ok (c, db')
    → (c.number ≡ some (given_number env db new))
      × (exists
            (has_number env new.ledger_id (env.year_of new.txn_date) (given_number env db new))
            db.transactions
          ≡ false)
unfolding create resolve_number insert_transaction
create-number env ids new db c db' h =
    let (p, planned, _, out) = create_with_kind-plan env ids new false db c db' h in
    let w = plan-Planned env ids new false db p planned in
    let numbered = w.numbered in
    let inserted = w.inserted in
    elim (Option-cases (user_number new.number)) [
      | inl e ↦ (ground arith, ground arith)
      | inr (n, e) ↦ (ground arith, ground arith)
    ]

create-number_taken :
    (env : Env) (ids : Ids) (new : NewTransaction) (db : Db) (c : CreatedTransaction) (db' : Db)
    → user_number new.number ≡ none
    → exists
        (has_number env new.ledger_id (env.year_of new.txn_date) (next_number env db new))
        db.transactions
      ≡ true
    → create env ids new db ≢ ok (c, db')
create-number_taken env ids new db c db' blank taken h =
    let free = (create-number env ids new db c db' h).1 in ground arith

-- Suppose that a ledger's year holds `n` transactions, that one of them has the n-th number of the
-- count, and that another one, a draft, is deleted. Then every later request of that ledger and
-- year that gives no number of its own fails in the database that the deletion leaves.
pub delete_draft-blocks_numbering :
    (env : Env) (ledger year draft actor : ℕ) (db db' : Db) (ids : Ids) (new : NewTransaction)
    (c : CreatedTransaction) (db'' : Db)
    → delete_draft ledger draft actor db ≡ ok (tt, db')
    → count (λ t. in_year env ledger year t && t.id == draft) db.transactions ≡ 1
    → exists
        (λ t.
          has_number env ledger year
            (format_number year (count (in_year env ledger year) db.transactions))
            t
          && not (t.id == draft))
        db.transactions
      ≡ true
    → new.ledger_id ≡ ledger
    → env.year_of new.txn_date ≡ year
    → user_number new.number ≡ none
    → create env ids new db' ≢ ok (c, db'')
unfolding delete_draft
delete_draft-blocks_numbering env ledger year draft actor db db' ids new c db'' h one last l y
      blank =
    let removed : db'.transactions ≡ delete (λ t. t.id == draft) db.transactions = ground arith in
    let kept =
      exists-delete
        (has_number env ledger year
          (format_number year (count (in_year env ledger year) db.transactions)))
        (λ (t : Txn). t.id == draft) db.transactions last in
    let fewer =
      count-delete (in_year env ledger year) (λ (t : Txn). t.id == draft) db.transactions in
    let next : count (in_year env ledger year) db'.transactions + 1
        ≡ count (in_year env ledger year) db.transactions =
      rw removed (omega arith) in
    create-number_taken env ids new db' c db'' blank (rw (l, y, next, removed) kept)
