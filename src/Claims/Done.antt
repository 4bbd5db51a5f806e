-- ===== src/Claims/Done.antt =====
-- What each handler of claims has read and written when it succeeds.
use openaccounting.Prelude.{
  ℕ, Bool, true, false, not, ◌≡◌, refl, ap, ◌||◌, Option, none, some, List, ◌∷◌, ◌==◌, length,
}
use openaccounting.Prelude.Int.{ℤ, pos, leb_ℤ, ltb_ℤ}
use openaccounting.Prelude.Tables.{find, exists}
use openaccounting.Prelude.Results.{ok, ok_or, bind_ok, then_ok, guard_ok, ok_inj}
use openaccounting.Prelude.Texts.{Text, trim, text_eq}
use openaccounting.Claims.Status.{submitted, rejected, can_transition_to}
use openaccounting.Claims.Data.{Line, Db, Env}
use openaccounting.Claims.Policies.{Policy, Violation}
use openaccounting.Claims.Access.{
  ensure_access, ensure_writer, Loaded, load_claim, edit_claim, update_status,
}
use openaccounting.Claims.Check.{
  lines_of, collect_policy_violations, hard_violation_message, blocked_by,
}
use openaccounting.Claims.Handlers.{
  NewClaimForm, NewLineForm, is_draft, is_empty, is_expense, clashes, claim_row, account_in,
  insert_line, create, add_line, submit, reject,
}
use openaccounting.Claims.Approve.{
  Answer, or_first, is_approved, is_open, approve_start, approve_commit, approve,
}

pub unnegated : (b : Bool) → not b ≡ false → b ≡ true
unnegated true h = refl
unnegated false h = cc

unblocked : (vs : Option (List (Policy × Violation))) → blocked_by vs ≡ ok tt → vs ≡ none
unblocked none h = refl
unblocked (some vs) h = cc

-- No hard policy of the ledger is violated by the claim.
abbrev pub IsAllowed : Env → Db → ℕ → Type 0
IsAllowed env db claim =
    (violations : List (Policy × Violation)) × (collect_policy_violations env db claim
      ≡ ok violations)
    × (hard_violation_message violations ≡ none)

pub create_done :
    (env : Env) (db : Db) (user ledger id : ℕ) (form : NewClaimForm) {db' : Db}
    → create env db user ledger id form ≡ ok db'
    → (exists (clashes (claim_row env id user ledger form)) db.claims ≡ false)
      × (db'.claims ≡ claim_row env id user ledger form ∷ db.claims)
      × (db'.lines ≡ db.lines)
      × (db'.steps ≡ db.steps)
unfolding create
create_done env db user ledger id form h =
    let (l, _, h1) = bind_ok (ensure_writer db user ledger) _ h in
    let (_, h2) = guard_ok (is_empty (trim form.title)) _ _ h1 in
    let (_, h3) = guard_ok (not (length form.currency == 3)) _ _ h2 in
    let (_, h4) = guard_ok (is_empty (trim form.employee_name)) _ _ h3 in
    let (_, h5) =
      guard_ok (not (text_eq (env.uppercase form.currency) (env.uppercase l.base_currency))) _ _
        h4 in
    let (new, h6) =
      guard_ok (exists (clashes (claim_row env id user ledger form)) db.claims) _ _ h5 in
    let e = ok_inj h6 in
    (new, ap (λ (d : Db). d.claims) e, ap (λ (d : Db). d.lines) e, ap (λ (d : Db). d.steps) e)

pub record IsLineAdded (db db' : Db) (ledger claim : ℕ) : Type 0 where
  pub c : Loaded
  pub loaded : load_claim db claim ledger ≡ ok c
  pub drafted : is_draft c.status ≡ true
  pub row : Line
  pub on_claim : row.claim_id ≡ claim
  pub written : db' ≡ record db { lines = row ∷ db.lines }

insert_line_done :
    (db : Db) (claim date : ℕ) (amount : ℤ) (account : ℕ) (tax advance : ℤ) {db' : Db}
    → insert_line db claim date amount account tax advance ≡ ok db'
    → (row : Line) × (row.claim_id ≡ claim) × (db' ≡ record db { lines = row ∷ db.lines })
unfolding insert_line
insert_line_done db claim date amount account tax advance h =
    let (_, h1) = guard_ok (ltb_ℤ tax (pos 0) || ltb_ℤ advance (pos 0)) _ _ h in
    (_, refl, ok_inj h1)

pub add_line_done :
    (db : Db) (user ledger claim : ℕ) (form : NewLineForm) {db' : Db}
    → add_line db user ledger claim form ≡ ok db'
    → IsLineAdded db db' ledger claim
unfolding add_line
add_line_done db user ledger claim form h =
    let (_, _, h1) = bind_ok (ensure_writer db user ledger) _ h in
    let (c, loaded, h2) = bind_ok (load_claim db claim ledger) _ h1 in
    let (drafted, h3) = guard_ok (not (is_draft c.status)) _ _ h2 in
    let (amount, _, h4) = bind_ok (ok_or form.amount _) _ h3 in
    let (_, h5) = guard_ok (leb_ℤ amount (pos 0)) _ _ h4 in
    let (tax, _, h6) = bind_ok (ok_or form.tax_amount _) _ h5 in
    let (advance, _, h7) = bind_ok (ok_or form.advance_amount _) _ h6 in
    let (date, _, h8) = bind_ok (ok_or form.txn_date _) _ h7 in
    let (a, _, h9) =
      bind_ok (ok_or (find (account_in ledger form.gl_account_id) db.accounts) _) _ h8 in
    let (_, h10) = guard_ok (not (is_expense a.subtype)) _ _ h9 in
    let (row, on, written) =
      insert_line_done db claim date amount form.gl_account_id tax advance h10 in
    record {
      c = c;
      loaded = loaded;
      drafted = unnegated _ drafted;
      row = row;
      on_claim = on;
      written = written;
    }

pub submit_done :
    (env : Env) (db : Db) (user ledger claim : ℕ) {db' : Db}
    → submit env db user ledger claim ≡ ok db'
    → (c : Loaded) × (load_claim db claim ledger ≡ ok c)
      × (can_transition_to c.status submitted ≡ true)
      × (is_empty (lines_of db claim) ≡ false)
      × IsAllowed env db claim
      × (db' ≡ update_status db claim user submitted)
unfolding submit
submit_done env db user ledger claim h =
    let (_, _, h1) = bind_ok (ensure_writer db user ledger) _ h in
    let (c, loaded, h2) = bind_ok (load_claim db claim ledger) _ h1 in
    let (allowed, h3) = guard_ok (not (can_transition_to c.status submitted)) _ _ h2 in
    let (lines, h4) = guard_ok (is_empty (lines_of db claim)) _ _ h3 in
    let (vs, collected, h5) = bind_ok (collect_policy_violations env db claim) _ h4 in
    let (open', h6) = then_ok (blocked_by (hard_violation_message vs)) _ h5 in
    (c, loaded, unnegated _ allowed, lines, (vs, collected, unblocked _ open'), ok_inj h6)

pub reject_done :
    (db : Db) (user ledger claim : ℕ) (reason : Text) {db' : Db}
    → reject db user ledger claim reason ≡ ok db'
    → (c : Loaded) × (load_claim db claim ledger ≡ ok c)
      × (can_transition_to c.status rejected ≡ true)
      × (db'
          ≡ update_status
              (edit_claim (λ r. record r { rejected_reason = some (trim reason) }) claim db)
              claim
              user
              rejected)
unfolding reject
reject_done db user ledger claim reason h =
    let (_, _, h1) = bind_ok (ensure_writer db user ledger) _ h in
    let (c, loaded, h2) = bind_ok (load_claim db claim ledger) _ h1 in
    let (allowed, h3) = guard_ok (not (can_transition_to c.status rejected)) _ _ h2 in
    let (_, h4) = guard_ok (is_empty (trim reason)) _ _ h3 in
    (c, loaded, unnegated _ allowed, ok_inj h4)

pub approve_start_done :
    (env : Env) (db : Db) (user ledger claim : ℕ) (query : Option ℤ) {c : Loaded} {level : ℕ}
    → approve_start env db user ledger claim query ≡ ok (c, level)
    → (load_claim db claim ledger ≡ ok c) × (is_open c.status ≡ true) × IsAllowed env db claim
unfolding approve_start
approve_start_done env db user ledger claim query {c} {level} h =
    let (_, _, h1) = bind_ok (ensure_access db user ledger) _ h in
    let (r, loaded, h2) = bind_ok (load_claim db claim ledger) _ h1 in
    let (_, h3) = guard_ok (is_approved r.status) _ _ h2 in
    let (is_open', h4) = guard_ok (not (is_open r.status)) _ _ h3 in
    let (vs, collected, h5) = bind_ok (collect_policy_violations env db claim) _ h4 in
    let (open', h6) = then_ok (blocked_by (hard_violation_message vs)) _ h5 in
    let (_, h7) = guard_ok (ltb_ℤ (or_first query) (pos 1)) _ _ h6 in
    let e : c ≡ r = ap (λ (p : Loaded × ℕ). p.0) (ok_inj h7) in
    (rw e loaded, rw e (unnegated _ is_open'), (vs, collected, unblocked _ open'))

pub approve_done :
    (env : Env) (db : Db) (user ledger claim : ℕ) (query : Option ℤ) (txn now : ℕ) {db' : Db}
    {answer : Answer}
    → approve env db user ledger claim query txn now ≡ ok (db', answer)
    → (c : Loaded) × (level : ℕ) × (approve_start env db user ledger claim query ≡ ok (c, level))
      × (approve_commit db user ledger c level txn now ≡ ok (db', answer))
unfolding approve
approve_done env db user ledger claim query txn now h =
    let (start, started, h1) = bind_ok (approve_start env db user ledger claim query) _ h in
    (start.0, start.1, started, h1)
