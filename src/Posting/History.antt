-- ===== src/Posting/History.antt =====
-- Any sequence of calls of the service, by any users, as a relation between databases.
use openaccounting.Prelude.{ℕ, ◌<◌, Bool, true, false, ◌≡◌, arith, inl, inr, some, none}
use openaccounting.Prelude.Results.{ok, Result-cases}
use openaccounting.Prelude.Foreign.{Env, IsCalendar}
use openaccounting.Posting.Data.{NewTransaction, CreatedTransaction, Db}
use openaccounting.Posting.Checks.{closed_through, max_through, max_year, check_open}
use openaccounting.Posting.Create.{
  Plan, Ids, plan, apply, create_with_kind, create, create_draft, check_period,
}
use openaccounting.Posting.Journal.{post_draft, delete_draft, approve_journal, reject_journal}
use openaccounting.Posting.Planned.{plan-Planned}
use openaccounting.Posting.Balance.{
  IsBalanced, plan-IsBalanced, append-IsBalanced, delete-IsBalanced,
}

pub data Step (env : Env) (db db' : Db) : Type 0 where
  creates :
      (ids : Ids) (new : NewTransaction) (c : CreatedTransaction)
      → create env ids new db ≡ ok (c, db')
      → Step env db db'
  drafts :
      (ids : Ids) (new : NewTransaction) (c : CreatedTransaction)
      → create_draft env ids new db ≡ ok (c, db')
      → Step env db db'
  posts :
      (ledger txn actor : ℕ) (c : CreatedTransaction)
      → post_draft env ledger txn actor db ≡ ok (c, db')
      → Step env db db'
  deletes :
      (ledger txn actor : ℕ) → delete_draft ledger txn actor db ≡ ok (tt, db') → Step env db db'
  approves :
      (ledger txn checker : ℕ)
      → approve_journal ledger txn checker db ≡ ok (tt, db')
      → Step env db db'
  rejects :
      (ledger txn checker : ℕ)
      → reject_journal ledger txn checker db ≡ ok (tt, db')
      → Step env db db'

pub data History (env : Env) (db : Db) : Db → Type 0 where
  start : History env db db
  next : {db' db'' : Db} → History env db db' → Step env db' db'' → History env db db''

pub create_with_kind-plan :
    (env : Env) (ids : Ids) (new : NewTransaction) (is_draft : Bool) (db : Db)
    (c : CreatedTransaction) (db' : Db)
    → create_with_kind env ids new is_draft db ≡ ok (c, db')
    → (p : Plan) × (plan env ids new is_draft db ≡ ok p)
      × (db' ≡ apply p is_draft db)
      × (c ≡ record { id = p.txn.id; kind = p.txn.kind; number = p.txn.number })
unfolding create_with_kind
create_with_kind-plan env ids new is_draft db c db' h =
    elim (Result-cases (plan env ids new is_draft db)) [
      | inl (p, e) ↦ (p, e, ground arith, ground arith)
      | inr (_, e) ↦ absurd (ground arith)
    ]

pub create_with_kind-IsBalanced :
    (env : Env) (ids : Ids) (new : NewTransaction) (is_draft : Bool) (db : Db)
    (c : CreatedTransaction) (db' : Db)
    → create_with_kind env ids new is_draft db ≡ ok (c, db')
    → IsBalanced db.postings
    → IsBalanced db'.postings
unfolding apply
create_with_kind-IsBalanced env ids new is_draft db c db' h b t =
    let (p, e, same, _) = create_with_kind-plan env ids new is_draft db c db' h in
    ground (
      arith,
      append-IsBalanced db.postings p.postings b (plan-IsBalanced env ids new is_draft db p e) t,
    )

post_draft-postings :
    (env : Env) (ledger txn actor : ℕ) (db : Db) (c : CreatedTransaction) (db' : Db)
    → post_draft env ledger txn actor db ≡ ok (c, db')
    → db'.postings ≡ db.postings
unfolding post_draft
post_draft-postings env ledger txn actor db c db' h = ground arith

delete_draft-IsBalanced :
    (ledger txn actor : ℕ) (db db' : Db)
    → delete_draft ledger txn actor db ≡ ok (tt, db')
    → IsBalanced db.postings
    → IsBalanced db'.postings
unfolding delete_draft
delete_draft-IsBalanced ledger txn actor db db' h b t =
    ground (arith, delete-IsBalanced txn db.postings b t)

approve_journal-postings :
    (ledger txn checker : ℕ) (db db' : Db)
    → approve_journal ledger txn checker db ≡ ok (tt, db')
    → db'.postings ≡ db.postings
unfolding approve_journal
approve_journal-postings ledger txn checker db db' h = ground arith

reject_journal-postings :
    (ledger txn checker : ℕ) (db db' : Db)
    → reject_journal ledger txn checker db ≡ ok (tt, db')
    → db'.postings ≡ db.postings
unfolding reject_journal
reject_journal-postings ledger txn checker db db' h = ground arith

Step-IsBalanced :
    {env : Env} {db db' : Db} → Step env db db' → IsBalanced db.postings → IsBalanced db'.postings
unfolding create create_draft
Step-IsBalanced {env} {db} {db'} (creates ids new c h) b t =
    create_with_kind-IsBalanced env ids new false db c db' h b t
Step-IsBalanced {env} {db} {db'} (drafts ids new c h) b t =
    create_with_kind-IsBalanced env ids _ true db c db' h b t
Step-IsBalanced {env} {db} {db'} (posts ledger txn actor c h) b t =
    ground (arith, post_draft-postings env ledger txn actor db c db' h, b t)
Step-IsBalanced {env} {db} {db'} (deletes ledger txn actor h) b t =
    delete_draft-IsBalanced ledger txn actor db db' h b t
Step-IsBalanced {env} {db} {db'} (approves ledger txn checker h) b t =
    ground (arith, approve_journal-postings ledger txn checker db db' h, b t)
Step-IsBalanced {env} {db} {db'} (rejects ledger txn checker h) b t =
    ground (arith, reject_journal-postings ledger txn checker db db' h, b t)

-- If, under every transaction identifier, the stored postings have equal debits and credits, then
-- so they have after any sequence of successful calls of `create`, `create_draft`, `post_draft`,
-- `delete_draft`, `approve_journal` and `reject_journal`.
pub History-IsBalanced :
    {env : Env} {db db' : Db}
    → History env db db'
    → IsBalanced db.postings
    → IsBalanced db'.postings
History-IsBalanced start b = b
History-IsBalanced (next h s) b = Step-IsBalanced s (History-IsBalanced h b)

-- If `create` succeeds and its ledger has a close watermark, the date of the transaction lies
-- after the watermark.
pub create_after_close :
    (env : Env) (ids : Ids) (new : NewTransaction) (db : Db) (c : CreatedTransaction) (db' : Db)
    (w : ℕ)
    → create env ids new db ≡ ok (c, db')
    → closed_through env db new.ledger_id ≡ some w
    → w < new.txn_date
unfolding create check_period check_open
create_after_close env ids new db c db' w h e =
    let (p, planned, _, _) = create_with_kind-plan env ids new false db c db' h in
    let facts = plan-Planned env ids new false db p planned in ground (arith, facts.period)

-- If `create` succeeds, and the ledger has been closed only by legacy rows, the latest of them for
-- the year `y` whose last day is `e`, then the transaction is dated in a year after `y`.
pub create_after_closed_year :
    (env : Env) (ids : Ids) (new : NewTransaction) (db : Db) (c : CreatedTransaction) (db' : Db)
    (y e : ℕ)
    → IsCalendar env
    → create env ids new db ≡ ok (c, db')
    → max_through new.ledger_id db.closed_periods ≡ none
    → max_year new.ledger_id db.closed_periods ≡ some y
    → env.december_31 y ≡ some e
    → y < env.year_of new.txn_date
unfolding closed_through
create_after_closed_year env ids new db c db' y e cal h none_through legacy last =
    let after = create_after_close env ids new db c db' e h (ground arith) in
    let bounds = cal.december_31_bounds y new.txn_date e last in ground (arith, bounds.1)
