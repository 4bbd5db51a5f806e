-- ===== src/Posting/Bypass.antt =====
-- Drafts and the maker-checker gate: a draft is promoted without a second user.
use openaccounting.Prelude.{
  ℕ, Bool, true, false, ◌≡◌, refl, arith, ◌==◌, ◌||◌, ◌≤◌, ◌⊎◌, inl, inr, some, none, if◌then◌else◌,
  str_eq, eq_iff, List, [], ◌∷◌, String, Option-cases, Bool-cases,
}
use openaccounting.Prelude.Int.{ℤ, pos, negsuc, pos_part, neg_part}
use openaccounting.Prelude.Sums.{sum}
use openaccounting.Prelude.Tables.{find-append_new}
use openaccounting.Prelude.Results.{ok}
use openaccounting.Prelude.Foreign.{Env}
use openaccounting.Posting.Data.{NewTransaction, CreatedTransaction, Db, Txn, Ledger}
use openaccounting.Posting.Checks.{
  check_open, ledger_by, needs_approval, over_threshold, journal_total, effective_amounts,
}
use openaccounting.Posting.Write.{insert_transaction}
use openaccounting.Posting.Create.{Plan, Ids, plan, apply, create, create_draft, requested_kind}
use openaccounting.Posting.Journal.{in_ledger, txn_by, check_editable, post_draft, logged, set_kind}
use openaccounting.Posting.Planned.{plan-Planned}
use openaccounting.Posting.History.{create_with_kind-plan}

-- The row that a plan inserts.
pub plan-txn :
    (env : Env) (ids : Ids) (new : NewTransaction) (is_draft : Bool) (db : Db) (p : Plan)
    → plan env ids new is_draft db ≡ ok p
    → (p.txn.id ≡ ids.txn)
      × (p.txn.ledger_id ≡ new.ledger_id)
      × (p.txn.txn_date ≡ new.txn_date)
      × (p.txn.created_by ≡ new.created_by)
      × (p.txn.kind ≡ (if p.is_pending then "pending" else requested_kind new))
unfolding insert_transaction
plan-txn env ids new is_draft db p h =
    let w = plan-Planned env ids new is_draft db p h in
    let inserted = w.inserted in
    (ground arith, ground arith, ground arith, ground arith, ground arith)

-- A draft is never held for approval.
pub plan-draft_kind :
    (env : Env) (ids : Ids) (new : NewTransaction) (db : Db) (p : Plan)
    → plan env ids new true db ≡ ok p
    → p.is_pending ≡ false
unfolding needs_approval
plan-draft_kind env ids new db p h =
    let w = plan-Planned env ids new true db p h in ground (arith, w.gate)

-- The journal of these amounts must be approved: its kind is "standard" or "adjusting", and the sum of
-- its positive amounts reaches a threshold of the ledger that is not negative.
pub record MustBeApproved (kind : String) (l : Ledger) (amounts : List ℤ) : Type 0 where
  pub threshold : ℤ
  pub is_threshold : l.approval_threshold ≡ some threshold
  pub not_negative : neg_part threshold ≡ 0
  pub subject : (kind ≡ "standard") ⊎ (kind ≡ "adjusting")
  pub reached : pos_part threshold ≤ sum pos_part amounts

journal_total-sum : (amounts : List ℤ) → journal_total amounts ≡ sum pos_part amounts
unfolding journal_total
journal_total-sum [] = refl
journal_total-sum (pos n ∷ amounts) = ground (arith, journal_total-sum amounts)
journal_total-sum (negsuc n ∷ amounts) = ground (arith, journal_total-sum amounts)

subject_of :
    (kind : String)
    → (str_eq kind "standard" || str_eq kind "adjusting") ≡ true
    → (kind ≡ "standard") ⊎ (kind ≡ "adjusting")
subject_of kind h = elim (Bool-cases (str_eq kind "standard")) [
  | inl e ↦ inl ((eq_iff kind "standard").0 e)
  | inr other ↦ inr ((eq_iff kind "adjusting").0 (ground arith))
]

is_subject :
    (kind : String)
    → (kind ≡ "standard") ⊎ (kind ≡ "adjusting")
    → (str_eq kind "standard" || str_eq kind "adjusting") ≡ true
is_subject kind (inl e) = let same = (eq_iff kind "standard").1 e in ground arith
is_subject kind (inr e) = let same = (eq_iff kind "adjusting").1 e in ground arith

module _ (db : Db) (kind : String) (ledger : ℕ) (l : Ledger) (amounts : List ℤ)
    (found : ledger_by ledger db ≡ some l) where
  needs_approval-MustBeApproved :
      needs_approval db false kind ledger (journal_total amounts) ≡ true
      → MustBeApproved kind l amounts
  unfolding needs_approval over_threshold
  needs_approval-MustBeApproved h = elim (Option-cases l.approval_threshold) [
    | inl unset ↦ absurd (ground arith)
    | inr (t, set) ↦
        let total = journal_total-sum amounts in
        record {
          threshold = t;
          is_threshold = set;
          not_negative = ground arith;
          subject = subject_of kind (ground arith);
          reached = ground (arith, total);
        }
  ]

  MustBeApproved-needs_approval :
      MustBeApproved kind l amounts
      → needs_approval db false kind ledger (journal_total amounts) ≡ true
  unfolding needs_approval over_threshold
  MustBeApproved-needs_approval m =
      let total = journal_total-sum amounts in
      let fits = is_subject kind m.subject in
      ground (arith, total, fits, m.is_threshold, m.not_negative, m.reached)

-- If `create` succeeds for a request of a known ledger and known effective amounts, then either the
-- kind that is asked for (by default "standard") is "standard" or "adjusting", the positive amounts
-- add up to a threshold of the ledger, zero or more, and the transaction is "pending"; or this is
-- not so, and the transaction has the kind that is asked for.
pub create-gate :
    (env : Env) (ids : Ids) (new : NewTransaction) (db : Db) (c : CreatedTransaction) (db' : Db)
    (amounts : List ℤ) (l : Ledger)
    → create env ids new db ≡ ok (c, db')
    → effective_amounts env db new ≡ ok amounts
    → ledger_by new.ledger_id db ≡ some l
    → (MustBeApproved (requested_kind new) l amounts × (c.kind ≡ "pending"))
      ⊎ ((MustBeApproved (requested_kind new) l amounts → ⊥) × (c.kind ≡ requested_kind new))
unfolding create
create-gate env ids new db c db' amounts l h e found =
    let (p, planned, _, out) = create_with_kind-plan env ids new false db c db' h in
    let w = plan-Planned env ids new false db p planned in
    let (_, _, _, _, kind) = plan-txn env ids new false db p planned in
    let gate = needs_approval db false (requested_kind new) new.ledger_id (journal_total amounts) in
    let made : c.kind ≡ (if gate then "pending" else requested_kind new) =
      ground (arith, w.gate, w.effective, out, kind) in
    elim (Bool-cases gate) [
      | inl held ↦ inl (
        needs_approval-MustBeApproved db (requested_kind new) new.ledger_id l amounts found held,
        rw held at made,
      )
      | inr free ↦ inr (
        λ m.
            let held =
              MustBeApproved-needs_approval db (requested_kind new) new.ledger_id l amounts found
                m in
            absurd (ground arith),
        rw free at made,
      )
    ]

-- A draft of an open date, in a ledger that may be edited, is promoted by whoever asks.
pub post_draft_succeeds :
    (env : Env) (ledger txn actor : ℕ) (db : Db) (l : Ledger) (d : Txn)
    → ledger_by ledger db ≡ some l
    → txn_by ledger txn db ≡ some d
    → str_eq d.kind "draft" ≡ true
    → check_open env db ledger d.txn_date ≡ ok tt
    → check_editable (λ t. t.id == txn) db ≡ ok tt
    → post_draft env ledger txn actor db
      ≡ ok (
        record { id = txn; kind = "standard"; number = none },
        logged ledger actor "promote" txn (set_kind "standard" (λ t. t.id == txn) db),
      )
unfolding post_draft
post_draft_succeeds env ledger txn actor db l d found here is_draft opened editable = ground arith

-- Suppose that a request is saved as a draft under a fresh identifier, that its date is open and
-- that the ledger lets the draft be updated. Then the user who made the draft can promote it to
-- "standard" at once, without a second user, whatever the approval threshold of the ledger is.
pub draft_promoted_by_maker :
    (env : Env) (ids : Ids) (new : NewTransaction) (db : Db) (c : CreatedTransaction) (db' : Db)
    → create_draft env ids new db ≡ ok (c, db')
    → txn_by new.ledger_id ids.txn db ≡ none
    → check_open env db' new.ledger_id new.txn_date ≡ ok tt
    → check_editable (λ t. t.id == ids.txn) db' ≡ ok tt
    → post_draft env new.ledger_id ids.txn new.created_by db'
      ≡ ok (
        record { id = ids.txn; kind = "standard"; number = none },
        logged new.ledger_id new.created_by "promote" ids.txn
            (set_kind "standard" (λ t. t.id == ids.txn) db'),
      )
unfolding create_draft apply txn_by ledger_by
draft_promoted_by_maker env ids new db c db' h fresh opened editable =
    let (p, planned, same, _) = create_with_kind-plan env ids _ true db c db' h in
    let w = plan-Planned env ids _ true db p planned in
    let (id, ledger, date, _, kind) = plan-txn env ids _ true db p planned in
    let not_held = plan-draft_kind env ids _ db p planned in
    post_draft_succeeds env new.ledger_id ids.txn new.created_by db' w.ledger p.txn
      (ground (arith, w.found))
      (ground (
        arith,
        find-append_new (in_ledger new.ledger_id ids.txn) db.transactions p.txn fresh
            (ground arith),
      ))
      (rw (kind, not_held) refl) (ground arith) editable
