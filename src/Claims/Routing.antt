-- ===== src/Claims/Routing.antt =====
-- `src/domain/approval_routing.rs`: the approval levels that a claim needs, and who may approve.
use openaccounting.Prelude.{
  ℕ, String, Bool, ◌&&◌, ◌||◌, not, List, [], ◌∷◌, ◌++◌, map, ltb, leb, ◌==◌, str_eq, if◌then◌else◌,
  length,
}
use openaccounting.Prelude.Tables.{select, exists}
use openaccounting.Prelude.Sums.{order_by}
use openaccounting.Claims.Data.{Ledger, Member, User, ApprovalPolicy, ApprovalStep, Db}

abbrev pub contains : List ℕ → ℕ → Bool
contains xs a = exists (λ x. x == a) xs

-- `Vec::dedup`: of equal neighbours the first stays.
unfoldable pub dedup_after : ℕ → List ℕ → List ℕ
dedup_after last [] = []
dedup_after last (x ∷ xs) = if x == last then dedup_after last xs else x ∷ dedup_after x xs

unfoldable pub dedup : List ℕ → List ℕ
dedup [] = []
dedup (x ∷ xs) = x ∷ dedup_after x xs

-- `Vec::sort_unstable`
unfoldable pub sort_unstable : List ℕ → List ℕ
sort_unstable xs = order_by leb xs

unfoldable pub or_one : List ℕ → List ℕ
or_one [] = 1 ∷ []
or_one (l ∷ ls) = l ∷ ls

unfoldable pub resolve_required_levels : List ℕ → List ℕ
resolve_required_levels matching = dedup (sort_unstable (or_one matching))

abbrev pub applies : ℕ → ℕ → ApprovalPolicy → Bool
applies ledger total p = p.ledger_id == ledger && leb p.min_amount total

abbrev pub by_amount_and_level : ApprovalPolicy → ApprovalPolicy → Bool
by_amount_and_level p q =
    ltb p.min_amount q.min_amount || (p.min_amount == q.min_amount && leb p.level q.level)

unfoldable pub required_levels : Db → ℕ → ℕ → List ℕ
required_levels db ledger total = resolve_required_levels (
    map (λ (p : ApprovalPolicy). p.level)
      (order_by by_amount_and_level (select (applies ledger total) db.approval_policies)))

abbrev pub step_of : ℕ → ApprovalStep → Bool
step_of claim s = s.claim_id == claim

-- SELECT DISTINCT level … ORDER BY level
unfoldable pub recorded_levels : Db → ℕ → List ℕ
recorded_levels db claim =
    dedup (sort_unstable (map (λ (s : ApprovalStep). s.level) (select (step_of claim) db.steps)))

abbrev pub ledger_by : ℕ → Ledger → Bool
ledger_by ledger l = l.id == ledger

abbrev pub is_owner : Db → ℕ → ℕ → Bool
is_owner db ledger user = exists (λ (l : Ledger). l.id == ledger && l.owner_id == user) db.ledgers

abbrev pub is_editor : Db → ℕ → ℕ → Bool
is_editor db ledger user =
    exists
      (λ (m : Member). (m.ledger_id == ledger && not (str_eq m.role "viewer")) && m.user_id == user)
      db.members

-- The WHERE of the query for the users that may approve.
abbrev pub may_approve : Db → ℕ → String → User → Bool
may_approve db ledger min_role u =
    (is_owner db ledger u.id || is_editor db ledger u.id)
    && (str_eq min_role "Accountant" || str_eq u.role "admin" || is_owner db ledger u.id)

unfoldable pub eligible_approvers : Db → ℕ → String → List ℕ
eligible_approvers db ledger min_role =
    dedup
      (sort_unstable (map (λ (u : User). u.id) (select (may_approve db ledger min_role) db.users)))

abbrev pub defines : ℕ → ℕ → ℕ → ApprovalPolicy → Bool
defines ledger level total p = (p.ledger_id == ledger && p.level == level) && leb p.min_amount total

abbrev role_or_admin : List ApprovalPolicy → String
role_or_admin [] = "Admin"
role_or_admin (p ∷ _) = p.approver_role

-- ORDER BY min_amount DESC LIMIT 1
unfoldable pub approver_role_for_level : Db → ℕ → ℕ → ℕ → String
approver_role_for_level db ledger level total = role_or_admin (
    order_by (λ (p q : ApprovalPolicy). leb q.min_amount p.min_amount)
      (select (defines ledger level total) db.approval_policies))

-- SELECT COUNT(*) of the owner UNION the members: each user once.
unfoldable pub ledger_user_count : Db → ℕ → ℕ
ledger_user_count db ledger = length (
    dedup (
      sort_unstable (
        map (λ (l : Ledger). l.owner_id) (select (ledger_by ledger) db.ledgers)
        ++ map (λ (m : Member). m.user_id)
            (select (λ (m : Member). m.ledger_id == ledger) db.members))))
