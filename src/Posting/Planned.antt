-- ===== src/Posting/Planned.antt =====
-- What is known of a write that `create_with_kind` did not refuse: each check has passed, and each
-- row is the one that its insert returned.
use openaccounting.Prelude.{
  Bool, false, some, List, ◌≡◌, arith, inl, inr, Option-cases, ltb, if◌then◌else◌, length,
}
use openaccounting.Prelude.Int.{ℤ}
use openaccounting.Prelude.Results.{ok, Result-cases}
use openaccounting.Prelude.Texts.{Text}
use openaccounting.Prelude.Foreign.{Env}
use openaccounting.Posting.Data.{Ledger, NewTransaction, Db}
use openaccounting.Posting.Checks.{
  ledger_by, effective_amounts, check_balance, check_accounts, check_dimensions, resolve_number,
  journal_total, needs_approval,
}
use openaccounting.Posting.Write.{insert_transaction, posting_rows, tax_rows}
use openaccounting.Posting.Create.{Plan, Ids, requested_kind, check_period, plan}

pub record Planned (env : Env) (ids : Ids) (new : NewTransaction) (is_draft : Bool) (db : Db)
    (p : Plan) : Type 0 where
  pub enough : ltb (length new.lines) 2 ≡ false
  pub amounts : List ℤ
  pub effective : effective_amounts env db new ≡ ok amounts
  pub balanced : check_balance amounts ≡ ok tt
  pub ledger : Ledger
  pub found : ledger_by new.ledger_id db ≡ some ledger
  pub period : check_period env db new is_draft ≡ ok tt
  pub accounts : check_accounts db new.ledger_id new.lines ≡ ok tt
  pub dimensions : check_dimensions db new.ledger_id new.lines ≡ ok tt
  pub number : Text
  pub numbered : resolve_number env db new ≡ ok number
  pub gate :
      p.is_pending
      ≡ needs_approval db is_draft (requested_kind new) new.ledger_id (journal_total amounts)
  pub total : p.total ≡ journal_total amounts
  pub inserted :
      insert_transaction env db ids.txn ledger
        (if p.is_pending then "pending" else requested_kind new)
        number
        new
      ≡ ok p.txn
  pub legs : posting_rows ids.posting 0 ids.txn new.lines amounts ≡ ok p.postings
  pub linked : tax_rows p.postings db.posting_taxes new.tax_links ≡ ok p.taxes

module _ (env : Env) (ids : Ids) (new : NewTransaction) (is_draft : Bool) (db : Db) (p : Plan)
    (h : plan env ids new is_draft db ≡ ok p) where
  amounts_known : (a : List ℤ) × (effective_amounts env db new ≡ ok a)
  unfolding plan
  amounts_known = elim (Result-cases (effective_amounts env db new)) [
    | inl found ↦ found
    | inr (_, failed) ↦ absurd (ground arith)
  ]

  ledger_known : (l : Ledger) × (ledger_by new.ledger_id db ≡ some l)
  unfolding plan
  ledger_known = elim (Option-cases (ledger_by new.ledger_id db)) [
    | inl missing ↦ absurd (ground arith)
    | inr found ↦ found
  ]

  number_known : (n : Text) × (resolve_number env db new ≡ ok n)
  unfolding plan
  number_known = elim (Result-cases (resolve_number env db new)) [
    | inl found ↦ found
    | inr (_, failed) ↦ absurd (ground arith)
  ]

  pub plan-Planned : Planned env ids new is_draft db p
  unfolding plan
  plan-Planned =
      let (a, ea) = amounts_known in
      let (l, el) = ledger_known in
      let (n, en) = number_known in
      record {
        enough = ground arith;
        amounts = a;
        effective = ea;
        balanced = ground arith;
        ledger = l;
        found = el;
        period = ground arith;
        accounts = ground arith;
        dimensions = ground arith;
        number = n;
        numbered = en;
        gate = ground arith;
        total = ground arith;
        inserted = ground arith;
        legs = ground arith;
        linked = ground arith;
      }
