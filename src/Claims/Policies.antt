-- ===== src/Claims/Policies.antt =====
-- `src/domain/policies.rs`: the violations of a policy by the lines of a claim.
use openaccounting.Prelude.{
  ℕ, String, Bool, true, false, ◌&&◌, not, Option, none, some, List, [], ◌∷◌, ◌==◌, str_eq,
  if◌then◌else◌,
}
use openaccounting.Prelude.Int.{ℤ, pos, ◌*ℤ◌, ltb_ℤ, leb_ℤ}
use openaccounting.Prelude.Tables.{select, exists}
use openaccounting.Prelude.Sums.{sum_ℤ}
use openaccounting.Claims.Data.{CategoryCapConfig, ReceiptRequiredConfig, Config, Env}

pub data PolicyKind : Type 0 where
  category_cap receipt_required per_diem : PolicyKind

unfoldable pub kind_as_str : PolicyKind → String
kind_as_str category_cap = "category_cap"
kind_as_str receipt_required = "receipt_required"
kind_as_str per_diem = "per_diem"

unfoldable pub parse_kind : String → Option PolicyKind
parse_kind s =
    if str_eq s "category_cap"
    then some category_cap
    else if str_eq s "receipt_required"
    then some receipt_required
    else if str_eq s "per_diem"
    then some per_diem
    else none

pub data Severity : Type 0 where
  hard soft : Severity

unfoldable pub severity_as_str : Severity → String
severity_as_str hard = "hard"
severity_as_str soft = "soft"

unfoldable pub parse_severity : String → Option Severity
parse_severity s =
    if str_eq s "hard" then some hard else if str_eq s "soft" then some soft else none

unfoldable pub is_hard : Severity → Bool
is_hard hard = true
is_hard soft = false

pub record Policy : Type 0 where
  pub name : String
  pub kind : PolicyKind
  pub config : Config
  pub severity : Severity

pub record PolicyLine : Type 0 where
  pub category : String
  pub txn_date : ℕ
  pub amount : ℤ
  pub has_receipt : Bool

pub data Violation : Type 0 where
  category_cap_over : String → ℕ → ℤ → ℤ → Violation
  receipt_missing : ℤ → ℤ → Violation
  per_diem_over : String → ℕ → ℤ → ℤ → Violation

module _ (env : Env) where
  unfoldable pub decimal_to_cents : ℤ → ℤ
  decimal_to_cents d = env.as_i64 (d *ℤ pos 100)

  -- The loop over the lines; `seen` holds the days of the category that are reported, since its
  -- keys all have the category of the policy.
  unfoldable pub cap_loop :
      CategoryCapConfig → List PolicyLine → List ℕ → List PolicyLine → List Violation
  unfolding decimal_to_cents
  cap_loop cfg lines seen [] = []
  cap_loop cfg lines seen (line ∷ rest) =
      let skip = cap_loop cfg lines seen rest in
      let sum =
        sum_ℤ (λ (l : PolicyLine). l.amount)
          (select
            (λ (l : PolicyLine). str_eq l.category cfg.category && l.txn_date == line.txn_date)
            lines) in
      let report =
        category_cap_over cfg.category line.txn_date (decimal_to_cents sum)
          (decimal_to_cents cfg.max_per_day)
        ∷ cap_loop cfg lines (line.txn_date ∷ seen) rest in
      if not (str_eq line.category cfg.category)
      then skip
      else if exists (λ d. d == line.txn_date) seen
      then skip
      else if ltb_ℤ cfg.max_per_day sum
      then report
      else skip

  unfoldable pub eval_category_cap : Policy → List PolicyLine → List Violation
  unfolding cap_loop
  eval_category_cap policy lines = elim policy.config.as_category_cap [
    | none ↦ []
    | some cfg ↦ cap_loop cfg lines [] lines
  ]

  unfoldable pub receipt_loop : ReceiptRequiredConfig → List PolicyLine → List Violation
  unfolding decimal_to_cents
  receipt_loop cfg [] = []
  receipt_loop cfg (line ∷ rest) =
      if leb_ℤ cfg.min_amount line.amount && not line.has_receipt
      then receipt_missing (decimal_to_cents line.amount) (decimal_to_cents cfg.min_amount)
        ∷ receipt_loop cfg rest
      else receipt_loop cfg rest

  unfoldable pub eval_receipt_required : Policy → List PolicyLine → List Violation
  unfolding receipt_loop
  eval_receipt_required policy lines = elim policy.config.as_receipt_required [
    | none ↦ []
    | some cfg ↦ receipt_loop cfg lines
  ]

  -- The loop over the lines reports nothing.
  unfoldable pub eval_per_diem : Policy → List PolicyLine → List Violation
  eval_per_diem policy lines = []

  unfoldable pub evaluate : Policy → List PolicyLine → List Violation
  unfolding eval_category_cap eval_receipt_required eval_per_diem
  evaluate policy lines = elim policy.kind [
    | category_cap ↦ eval_category_cap policy lines
    | receipt_required ↦ eval_receipt_required policy lines
    | per_diem ↦ eval_per_diem policy lines
  ]
