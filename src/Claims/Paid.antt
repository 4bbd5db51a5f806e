-- ===== src/Claims/Paid.antt =====
-- What `pay` has read and written when it succeeds.
use openaccounting.Prelude.{ℕ, true, not, ◌≡◌, ap, sym, ◌∙◌, some, List, [], ◌∷◌}
use openaccounting.Prelude.Tables.{find}
use openaccounting.Prelude.Results.{Result, ok, ok_or, bind_ok, guard_ok, ok_or_ok, ok_inj}
use openaccounting.Claims.Status.{paid, can_transition_to}
use openaccounting.Claims.Data.{Account, Posting, Txn, Db, Env}
use openaccounting.Claims.Access.{Error, ensure_writer, Loaded, load_claim, edit_claim}
use openaccounting.Claims.Handlers.{account_in}
use openaccounting.Claims.Done.{unnegated}
use openaccounting.Claims.Trigger.{insert_postings}
use openaccounting.Claims.Approve.{leg, credit_leg, payable_account}
use openaccounting.Claims.Pay.{is_payout, latest_txn, net_payable, payout_row, pay}

-- The claim that is paid, the transaction that it is paid after, and what is written.
pub record IsPaid (db db' : Db) (user ledger claim payout first second today now : ℕ) : Type 0 where
  pub c : Loaded
  pub loaded : load_claim db claim ledger ≡ ok c
  pub allowed : can_transition_to c.status paid ≡ true
  pub payable : Account
  pub is_payable : payable_account db ledger ≡ some payable
  pub booked : Txn
  pub is_booked : latest_txn db ledger c.claim ≡ some booked
  pub inserted :
      insert_postings db.trigger_enabled
        (leg second payable.id (net_payable db booked.id)
          ∷ credit_leg second payout (net_payable db booked.id)
          ∷ [])
        db.postings
      ≡ ok db'.postings
  pub headers :
      db'.transactions
      ≡ payout_row second ledger c.claim user today now
        ∷ payout_row first ledger c.claim user today now
        ∷ db.transactions
  pub written :
      db'.claims
      ≡ (edit_claim
          (λ r. record r { status = "paid"; payout_account_id = some payout })
          claim
          db).claims
  pub lines_kept : db'.lines ≡ db.lines
  pub steps_kept : db'.steps ≡ db.steps

abbrev posted_as : Db → Result Error (List Posting)
posted_as d = ok d.postings

pub pay_done :
    (env : Env) (db : Db) (user ledger claim payout first second today now : ℕ) {db' : Db}
    → pay env db user ledger claim payout first second today now ≡ ok db'
    → IsPaid db db' user ledger claim payout first second today now
unfolding pay
pay_done env db user ledger claim payout first second today now h =
    let (_, _, h1) = bind_ok (ensure_writer db user ledger) _ h in
    let (c, loaded, h2) = bind_ok (load_claim db claim ledger) _ h1 in
    let (allowed, h3) = guard_ok (not (can_transition_to c.status paid)) _ _ h2 in
    let (a, _, h4) = bind_ok (ok_or (find (account_in ledger payout) db.accounts) _) _ h3 in
    let (_, h5) = guard_ok (not (is_payout env a)) _ _ h4 in
    let (payable, is_payable, h6) = bind_ok (ok_or (payable_account db ledger) _) _ h5 in
    let (t, is_booked, h7) = bind_ok (ok_or (latest_txn db ledger c.claim) _) _ h6 in
    let (qs, inserted, h8) =
      bind_ok
        (insert_postings db.trigger_enabled
          (leg second payable.id (net_payable db t.id)
            ∷ credit_leg second payout (net_payable db t.id)
            ∷ [])
          db.postings)
        _ h7 in
    let e = ok_inj h8 in
    record {
      c = c;
      loaded = loaded;
      allowed = unnegated _ allowed;
      payable = payable;
      is_payable = ok_or_ok _ _ is_payable;
      booked = t;
      is_booked = ok_or_ok _ _ is_booked;
      inserted = inserted ∙ ap posted_as (sym e);
      headers = ap (λ (d : Db). d.transactions) e;
      written = ap (λ (d : Db). d.claims) e;
      lines_kept = ap (λ (d : Db). d.lines) e;
      steps_kept = ap (λ (d : Db). d.steps) e;
    }
