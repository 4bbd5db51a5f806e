-- ===== src/Reports/LedgerBalance.antt =====
-- Double entry by ledger: the postings on the accounts of one ledger balance by themselves,
-- because a transaction only has accounts of its own ledger.
use openaccounting.Prelude.{
  ℕ, Bool, true, false, List, [], ◌∷◌, ◌++◌, ◌≡◌, refl, arith, ◌==◌, All, Bool-cases, inl, inr, ◌∙◌,
  sym,
}
use openaccounting.Prelude.Tables.{select, delete, exists}
use openaccounting.Prelude.Results.{ok}
use openaccounting.Prelude.Foreign.{Env}
use openaccounting.Posting.Data.{NewTransaction, CreatedTransaction, Scoped, Posting, Db}
use openaccounting.Posting.Checks.{in_scope}
use openaccounting.Posting.Create.{Plan, Ids, plan, apply, create_with_kind, create, create_draft}
use openaccounting.Posting.Journal.{post_draft, delete_draft, approve_journal, reject_journal}
use openaccounting.Posting.Planned.{plan-Planned}
use openaccounting.Posting.Balance.{
  IsBalanced, plan-IsBalanced, append-IsBalanced, delete-IsBalanced,
}
use openaccounting.Posting.History.{
  Step, creates, drafts, posts, deletes, approves, rejects, History, start, next,
  create_with_kind-plan,
}
use openaccounting.Posting.Legs.{IsLeg, posting_rows-IsLeg}

-- No two rows have the same identifier, as a primary key demands.
abbrev pub IsKeyed : List Scoped → Type 0
IsKeyed [] = Unit
IsKeyed (a ∷ rest) = (exists (λ (b : Scoped). b.id == a.id) rest ≡ false) × IsKeyed rest

abbrev pub is_on : ℕ → List Scoped → Posting → Bool
is_on ledger accounts p = in_scope p.account_id ledger accounts

abbrev pub IsLedgerBalanced : ℕ → List Scoped → List Posting → Type 0
IsLedgerBalanced ledger accounts ps = IsBalanced (select (is_on ledger accounts) ps)

in_scope-exists :
    (id ledger : ℕ) (rows : List Scoped)
    → in_scope id ledger rows ≡ true
    → exists (λ (b : Scoped). b.id == id) rows ≡ true
in_scope-exists id ledger [] h = ground arith
in_scope-exists id ledger (r ∷ rs) h = ground (arith, in_scope-exists id ledger rs)

-- An account is of one ledger.
in_scope_once :
    (id l m : ℕ) (rows : List Scoped)
    → IsKeyed rows
    → in_scope id l rows ≡ true
    → in_scope id m rows ≡ true
    → l ≡ m
in_scope_once id l m [] k h h' = absurd (ground arith)
in_scope_once id l m (r ∷ rs) k h h' =
    let first = k.0 in
    elim (Bool-cases (r.id == id)) [
      | inl same ↦
          let e : r.id ≡ id = ground arith in
          ground (arith, in_scope-exists r.id l rs, in_scope-exists r.id m rs)
      | inr other ↦ in_scope_once id l m rs k.1 (ground arith) (ground arith)
    ]

pub select-append :
    (q : Posting → Bool) (ps qs : List Posting) → select q (ps ++ qs) ≡ select q ps ++ select q qs
select-append q [] qs = refl
select-append q (p ∷ ps) qs = ground (arith, select-append q ps qs)

select-delete :
    (q r : Posting → Bool) (ps : List Posting) → select q (delete r ps) ≡ delete r (select q ps)
select-delete q r [] = refl
select-delete q r (p ∷ ps) = ground (arith, select-delete q r ps)

-- The legs of one ledger are all on its accounts, and none is on another ledger's.
select_legs :
    (db : Db) (m txn : ℕ) (rows : List Posting)
    → All (IsLeg db m txn) rows
    → select (is_on m db.accounts) rows ≡ rows
select_legs db m txn [] h = refl
select_legs db m txn (p ∷ ps) h =
    let on = h.0.account in ground (arith, select_legs db m txn ps h.1)

select_other_legs :
    (db : Db) (l m txn : ℕ) (rows : List Posting)
    → IsKeyed db.accounts
    → (l == m) ≡ false
    → All (IsLeg db m txn) rows
    → select (is_on l db.accounts) rows ≡ []
select_other_legs db l m txn [] k n h = refl
select_other_legs db l m txn (p ∷ ps) k n h =
    let on = h.0.account in
    elim (Bool-cases (in_scope p.account_id l db.accounts)) [
      | inl both ↦
          let same = in_scope_once p.account_id l m db.accounts k both on in absurd (ground arith)
      | inr off ↦ ground (arith, select_other_legs db l m txn ps k n h.1)
    ]

plan-IsLedgerBalanced :
    (env : Env) (ids : Ids) (new : NewTransaction) (is_draft : Bool) (db : Db) (p : Plan) (l : ℕ)
    → IsKeyed db.accounts
    → plan env ids new is_draft db ≡ ok p
    → IsLedgerBalanced l db.accounts p.postings
plan-IsLedgerBalanced env ids new is_draft db p l k h =
    let w = plan-Planned env ids new is_draft db p h in
    let legs =
      posting_rows-IsLeg db new.ledger_id ids.posting 0 ids.txn new.lines w.amounts p.postings
        w.legs w.accounts w.dimensions in
    elim (Bool-cases (l == new.ledger_id)) [
      | inl same ↦
          let e : l ≡ new.ledger_id = ground arith in
          rw e (
            rw (select_legs db new.ledger_id ids.txn p.postings legs)
              (plan-IsBalanced env ids new is_draft db p h))
      | inr other ↦
          rw (select_other_legs db l new.ledger_id ids.txn p.postings k other legs) (λ t. refl)
    ]

create_with_kind-IsLedgerBalanced :
    (env : Env) (ids : Ids) (new : NewTransaction) (is_draft : Bool) (db : Db)
    (c : CreatedTransaction) (db' : Db) (l : ℕ)
    → IsKeyed db.accounts
    → create_with_kind env ids new is_draft db ≡ ok (c, db')
    → IsLedgerBalanced l db.accounts db.postings
    → (db'.accounts ≡ db.accounts) × IsLedgerBalanced l db.accounts db'.postings
unfolding apply
create_with_kind-IsLedgerBalanced env ids new is_draft db c db' l k h b =
    let (p, e, same, _) = create_with_kind-plan env ids new is_draft db c db' h in
    let q = is_on l db.accounts in
    (
      ground arith,
      λ t. ground (
        arith,
        select-append q db.postings p.postings,
        append-IsBalanced (select q db.postings) (select q p.postings) b
            (plan-IsLedgerBalanced env ids new is_draft db p l k e) t,
      ),
    )

delete_draft-IsLedgerBalanced :
    (ledger txn actor : ℕ) (db db' : Db) (l : ℕ)
    → delete_draft ledger txn actor db ≡ ok (tt, db')
    → IsLedgerBalanced l db.accounts db.postings
    → (db'.accounts ≡ db.accounts) × IsLedgerBalanced l db.accounts db'.postings
unfolding delete_draft
delete_draft-IsLedgerBalanced ledger txn actor db db' l h b =
    let q = is_on l db.accounts in
    (
      ground arith,
      λ t. ground (
        arith,
        select-delete q (λ p. p.transaction_id == txn) db.postings,
        delete-IsBalanced txn (select q db.postings) b t,
      ),
    )

Step-IsLedgerBalanced :
    {env : Env} {db db' : Db} (l : ℕ)
    → Step env db db'
    → IsKeyed db.accounts
    → IsLedgerBalanced l db.accounts db.postings
    → (db'.accounts ≡ db.accounts) × IsLedgerBalanced l db.accounts db'.postings
unfolding create create_draft post_draft approve_journal reject_journal
Step-IsLedgerBalanced {env} {db} {db'} l (creates ids new c h) k b =
    create_with_kind-IsLedgerBalanced env ids new false db c db' l k h b
Step-IsLedgerBalanced {env} {db} {db'} l (drafts ids new c h) k b =
    create_with_kind-IsLedgerBalanced env ids _ true db c db' l k h b
Step-IsLedgerBalanced {env} {db} {db'} l (posts ledger txn actor c h) k b =
    let same : db'.postings ≡ db.postings = ground arith in (ground arith, rw same b)
Step-IsLedgerBalanced {env} {db} {db'} l (deletes ledger txn actor h) k b =
    delete_draft-IsLedgerBalanced ledger txn actor db db' l h b
Step-IsLedgerBalanced {env} {db} {db'} l (approves ledger txn checker h) k b =
    let same : db'.postings ≡ db.postings = ground arith in (ground arith, rw same b)
Step-IsLedgerBalanced {env} {db} {db'} l (rejects ledger txn checker h) k b =
    let same : db'.postings ≡ db.postings = ground arith in (ground arith, rw same b)

-- If the identifiers of the accounts are unique and the postings on the accounts of a ledger
-- balance under every transaction identifier, then so they do after any sequence of successful
-- calls of the posting service, which leave the accounts as they are.
pub History-IsLedgerBalanced :
    {env : Env} {db db' : Db} (l : ℕ)
    → History env db db'
    → IsKeyed db.accounts
    → IsLedgerBalanced l db.accounts db.postings
    → (db'.accounts ≡ db.accounts) × IsLedgerBalanced l db.accounts db'.postings
History-IsLedgerBalanced l start k b = (refl, b)
History-IsLedgerBalanced {env} {db} {db'} l (next {db' = mid} h s) k b =
    let (same, kept) = History-IsLedgerBalanced l h k b in
    let (same', kept') = Step-IsLedgerBalanced l s (rw same k) (rw same kept) in
    (same' ∙ same, rw (sym same) kept')
