-- ===== src/Claims/Check.antt =====
-- `collect_policy_violations` and `hard_violation_message` (`src/handlers/reimbursement.rs`).
use openaccounting.Prelude.{
  ℕ, String, Bool, false, ◌&&◌, Option, none, some, List, [], ◌∷◌, ◌++◌, map, ◌==◌,
}
use openaccounting.Prelude.Int.{pos}
use openaccounting.Prelude.Tables.{find, select}
use openaccounting.Prelude.Results.{Result, ok, ◌>>=◌, ok_or}
use openaccounting.Claims.Data.{Account, PolicyRow, Line, Db, Env}
use openaccounting.Claims.Policies.{
  Policy, PolicyLine, Violation, parse_kind, parse_severity, is_hard, evaluate,
}
use openaccounting.Claims.Access.{Error, claim_by}

abbrev pub line_of : ℕ → Line → Bool
line_of claim l = l.claim_id == claim

abbrev pub lines_of : Db → ℕ → List Line
lines_of db claim = select (line_of claim) db.lines

-- COALESCE((SELECT name FROM accounts …), 'other')
abbrev pub category_of : Db → ℕ → String
category_of db account = elim (find (λ (a : Account). a.id == account) db.accounts) [
  | none ↦ "other"
  | some a ↦ a.name
]

-- FALSE AS has_receipt
unfoldable pub policy_line : Db → Line → PolicyLine
policy_line db l = record {
  category = category_of db l.gl_account_id;
  txn_date = l.txn_date;
  amount = pos l.amount;
  has_receipt = false;
}

abbrev pub is_active_in : ℕ → PolicyRow → Bool
is_active_in ledger p = p.ledger_id == ledger && p.is_active

unfoldable pub row_violations : Env → List PolicyLine → PolicyRow → List (Policy × Violation)
row_violations env lines row = elim (parse_kind row.kind) [
  | none ↦ []
  | some kind ↦ elim (parse_severity row.severity) [
    | none ↦ []
    | some severity ↦
        let policy : Policy = record {
          name = row.name;
          kind = kind;
          config = row.config;
          severity = severity;
        } in
        map (λ v. (policy, v)) (evaluate env policy lines)
  ]
]

unfoldable pub violations_of : Env → List PolicyLine → List PolicyRow → List (Policy × Violation)
violations_of env lines [] = []
violations_of env lines (row ∷ rows) = row_violations env lines row ++ violations_of env lines rows

unfoldable pub collect_policy_violations : Env → Db → ℕ → Result Error (List (Policy × Violation))
collect_policy_violations env db claim =
    ok_or (find (claim_by claim) db.claims) Error.refused >>= λ c. ok (
      violations_of env (map (policy_line db) (lines_of db claim))
        (select (is_active_in c.ledger_id) db.policies))

abbrev pub is_hard_violation : Policy × Violation → Bool
is_hard_violation v = is_hard v.0.severity

abbrev pub some_if_any : List (Policy × Violation) → Option (List (Policy × Violation))
some_if_any [] = none
some_if_any (v ∷ vs) = some (v ∷ vs)

-- The violations that the message lists.
unfoldable pub hard_violation_message :
    List (Policy × Violation) → Option (List (Policy × Violation))
hard_violation_message violations = some_if_any (select is_hard_violation violations)

abbrev pub blocked_by : Option (List (Policy × Violation)) → Result Error (Unit {0})
blocked_by none = ok tt
blocked_by (some vs) = Result.err (Error.policy_violation vs)
