-- ===== src/Claims/Receipts.antt =====
-- A receipt policy in the handlers: `collect_policy_violations` reads no receipts.
use openaccounting.Prelude.{
  ℕ, true, ◌≡◌, ◌≢◌, refl, Option, none, some, List, [], ◌∷◌, ◌++◌, map, arith, Bool-cases, inl,
  inr, subst,
}
use openaccounting.Prelude.Int.{ℤ, pos, leb_ℤ}
use openaccounting.Prelude.Tables.{find, select}
use openaccounting.Prelude.Results.{ok, ok_inj}
use openaccounting.Claims.Data.{ReceiptRequiredConfig, PolicyRow, Claim, Line, Db, Env}
use openaccounting.Claims.Policies.{
  Policy, PolicyLine, Violation, hard, receipt_required, is_hard, parse_kind, parse_severity,
  evaluate, receipt_loop, eval_receipt_required,
}
use openaccounting.Claims.Access.{claim_by}
use openaccounting.Claims.Check.{
  lines_of, policy_line, is_active_in, is_hard_violation, row_violations, violations_of,
  collect_policy_violations, hard_violation_message, some_if_any,
}
use openaccounting.Claims.Handlers.{submit}
use openaccounting.Claims.Approve.{Answer, approve}
use openaccounting.Claims.Done.{IsAllowed, submit_done, approve_done, approve_start_done}

-- A list has no hard violation.
abbrev NoHard : List (Policy × Violation) → Type 0
NoHard vs = select is_hard_violation vs ≡ []

NoHard-append : (vs ws : List (Policy × Violation)) → NoHard (vs ++ ws) → NoHard vs × NoHard ws
NoHard-append [] ws h = (refl, h)
NoHard-append (v ∷ vs) ws h = elim (Bool-cases (is_hard_violation v)) [
  | inl bad ↦ absurd (more (rw bad at h))
  | inr fine ↦ let r = NoHard-append vs ws (rw fine at h) in (rw fine r.0, r.1)
]
  where
    more : {x : Policy × Violation} {xs : List (Policy × Violation)} → x ∷ xs ≡ [] → ⊥
    more e = cc

-- Each row of a list of policies has no hard violation if the list has none.
NoHard-row :
    (env : Env) (lines : List PolicyLine) (before after : List PolicyRow) (row : PolicyRow)
    → NoHard (violations_of env lines (before ++ row ∷ after))
    → NoHard (row_violations env lines row)
unfolding violations_of
NoHard-row env lines [] after row h =
    (NoHard-append (row_violations env lines row) (violations_of env lines after) h).0
NoHard-row env lines (p ∷ ps) after row h =
    NoHard-row env lines ps after row
      (NoHard-append (row_violations env lines p) (violations_of env lines (ps ++ row ∷ after)) h).1

-- The violations of a hard policy are hard.
hard_violations :
    (policy : Policy) (vs : List Violation)
    → policy.severity ≡ hard
    → NoHard (map (λ v. (policy, v)) vs)
    → vs ≡ []
unfolding is_hard
hard_violations policy [] s h = refl
hard_violations policy (v ∷ vs) s h = absurd (more (rw s at h))
  where
    more : {x : Policy × Violation} {xs : List (Policy × Violation)} → x ∷ xs ≡ [] → ⊥
    more e = cc

-- A line of at least the amount has a receipt missing, since no line is read with a receipt.
receipt_loop_reports :
    (env : Env) (db : Db) (cfg : ReceiptRequiredConfig) (before after : List Line) (l : Line)
    → leb_ℤ cfg.min_amount (pos l.amount) ≡ true
    → receipt_loop env cfg (map (policy_line db) (before ++ l ∷ after)) ≢ []
unfolding receipt_loop policy_line
receipt_loop_reports env db cfg [] after l big h = ground arith
receipt_loop_reports env db cfg (k ∷ ks) after l big h =
    ground (arith, receipt_loop_reports env db cfg ks after l big)

quiet_NoHard : (vs : List (Policy × Violation)) → hard_violation_message vs ≡ none → NoHard vs
unfolding hard_violation_message
quiet_NoHard vs h = quiet (select is_hard_violation vs) h
  where
    quiet : (ws : List (Policy × Violation)) → some_if_any ws ≡ none → ws ≡ []
    quiet [] e = refl
    quiet (w ∷ ws) e = cc

-- The policy that a hard row on receipts is read as.
abbrev receipt_policy : PolicyRow → Policy
receipt_policy row = record {
  name = row.name;
  kind = receipt_required;
  config = row.config;
  severity = hard;
}

receipt_row :
    (env : Env) (lines : List PolicyLine) (row : PolicyRow)
    → row.kind ≡ "receipt_required"
    → row.severity ≡ "hard"
    → row_violations env lines row
      ≡ map (λ v. (receipt_policy row, v)) (eval_receipt_required env (receipt_policy row) lines)
unfolding row_violations evaluate parse_kind parse_severity
receipt_row env lines row kind severity = rw (kind, severity) refl

module _ (env : Env) (db : Db) (claim : ℕ) (c : Claim) (row : PolicyRow)
    (cfg : ReceiptRequiredConfig) (ps qs : List PolicyRow) (l : Line)
    (before after : List Line) where
  blocked :
      find (claim_by claim) db.claims ≡ some c
      → select (is_active_in c.ledger_id) db.policies ≡ ps ++ row ∷ qs
      → row.kind ≡ "receipt_required"
      → row.severity ≡ "hard"
      → row.config.as_receipt_required ≡ some cfg
      → lines_of db claim ≡ before ++ l ∷ after
      → leb_ℤ cfg.min_amount (pos l.amount) ≡ true
      → ¬ IsAllowed env db claim
  unfolding collect_policy_violations eval_receipt_required
  blocked found active kind severity config lines big (vs, collected, quiet) =
      let ls = map (policy_line db) (before ++ l ∷ after) in
      let e : vs ≡ violations_of env ls (ps ++ row ∷ qs) =
        ok_inj (rw (found, active, lines) at collected) in
      let quiet_row =
        NoHard-row env ls ps qs row
          (quiet_NoHard _ (subst (λ v. hard_violation_message v ≡ none) e quiet)) in
      let none_reported =
        hard_violations (receipt_policy row) _ refl
          (subst NoHard (receipt_row env ls row kind severity) quiet_row) in
      receipt_loop_reports env db cfg before after l big (rw config at none_reported)

  -- A claim with a line of at least the amount of an active hard receipt policy of its ledger can
  -- be neither submitted nor approved.
  pub receipt_blocks :
      find (claim_by claim) db.claims ≡ some c
      → select (is_active_in c.ledger_id) db.policies ≡ ps ++ row ∷ qs
      → row.kind ≡ "receipt_required"
      → row.severity ≡ "hard"
      → row.config.as_receipt_required ≡ some cfg
      → lines_of db claim ≡ before ++ l ∷ after
      → leb_ℤ cfg.min_amount (pos l.amount) ≡ true
      → ((user ledger : ℕ) (db' : Db) → submit env db user ledger claim ≢ ok db')
        × ((user ledger : ℕ) (query : Option ℤ) (txn now : ℕ) (db' : Db) (answer : Answer)
            → approve env db user ledger claim query txn now ≢ ok (db', answer))
  receipt_blocks found active kind severity config lines big =
      let stop = blocked found active kind severity config lines big in
      (
        (λ user ledger db' h. stop (submit_done env db user ledger claim h).4),
        (λ user ledger query txn now db' answer h.
            let (c', level, started, _) = approve_done env db user ledger claim query txn now h in
            stop (approve_start_done env db user ledger claim query started).2),
      )
