-- ===== src/Claims/Tests.antt =====
-- The theorems about claims at a claim that is approved and paid.
use openaccounting.Prelude.{
  ℕ, true, ◌&&◌, ◌≡◌, ◌≢◌, refl, Option, some, [], ◌∷◌, if◌then◌else◌, arith,
}
use openaccounting.Prelude.Int.{ℤ, pos, ltb_ℤ, ◌+ℤ◌, ◌-ℤ◌}
use openaccounting.Prelude.Tables.{exists, count}
use openaccounting.Prelude.Sums.{sum_ℤ}
use openaccounting.Prelude.Results.{ok, err}
use openaccounting.Claims.Status.{ClaimStatus, partially_approved, as_str, parse, can_transition_to}
use openaccounting.Claims.Reachable.{Trace}
use openaccounting.Claims.Data.{Db}
use openaccounting.Claims.Routing.{
  contains, eligible_approvers, required_levels, resolve_required_levels, dedup, dedup_after,
  sort_unstable, or_one, recorded_levels, approver_role_for_level, ledger_user_count,
}
use openaccounting.Claims.Trigger.{insert_postings}
use openaccounting.Claims.Check.{collect_policy_violations, hard_violation_message, violations_of}
use openaccounting.Prelude.Texts.{text_eq}
use openaccounting.Claims.Policies.{eval_category_cap}
use openaccounting.Claims.Access.{forbidden, ensure_access, ensure_writer, load_claim}
use openaccounting.Claims.Handlers.{submit}
use openaccounting.Claims.Approve.{
  Answer, redirect, level_already_approved, claim_total, record_step, approve, approve_commit,
}
use openaccounting.Claims.Pay.{pay}
use openaccounting.Claims.StatusOf.{status_of}
use openaccounting.Claims.Moves.{approves, pays}
use openaccounting.Claims.History.{History, start, call, History-Trace}
use openaccounting.Claims.Approval.{Posts, approve-Posts, IsRecorded, approve-IsRecorded}
use openaccounting.Claims.Once.{approve_commit_again}
use openaccounting.Claims.Auditors.{eligible_approvers-auditor}
use openaccounting.Claims.Payout.{IsPayout, pay-IsPayout}
use openaccounting.Claims.Caps.{reports, spent, is_spent, count-eval_category_cap}
use openaccounting.Claims.Receipts.{receipt_blocks}
use openaccounting.Claims.Samples

-- The owner approves level 2, and a level that is approved is approved again.
approves_last :
    approve Samples.env Samples.half_approved 10 1 7 (some (pos 2)) 900 5
    ≡ ok (Samples.all_approved, redirect)
unfolding approve ensure_access load_claim parse collect_policy_violations hard_violation_message
    violations_of required_levels resolve_required_levels dedup dedup_after sort_unstable or_one
    recorded_levels eligible_approvers approver_role_for_level ledger_user_count insert_postings
    ◌+ℤ◌ ◌-ℤ◌
approves_last = refl

commits_last :
    approve_commit Samples.half_approved 10 1 Samples.earlier 2 900 5
    ≡ ok (Samples.all_approved, redirect)
unfolding approve_commit required_levels resolve_required_levels dedup dedup_after sort_unstable
    or_one recorded_levels eligible_approvers approver_role_for_level ledger_user_count
    insert_postings ◌+ℤ◌ ◌-ℤ◌
commits_last = refl

commits_again :
    approve_commit Samples.all_approved 12 1 Samples.earlier 1 903 6
    ≡ ok (Samples.all_approved, level_already_approved)
unfolding approve_commit required_levels resolve_required_levels dedup sort_unstable or_one
    recorded_levels
commits_again = refl

pays_out : pay Samples.env Samples.all_approved 10 1 7 300 901 902 60 9 ≡ ok Samples.paid_out
unfolding pay ensure_writer load_claim parse can_transition_to text_eq insert_postings ◌+ℤ◌
pays_out = refl

approve-Posts_example : Posts Samples.half_approved Samples.all_approved 7 1 900
approve-Posts_example =
    approve-Posts Samples.env Samples.half_approved 10 1 7 (some (pos 2)) 900 5 refl approves_last

-- Without the trigger a taxed claim is approved too, and is posted out of balance by the tax.
approves_taxed :
    approve Samples.env Samples.taxed 10 1 7 (some (pos 2)) 900 5
    ≡ ok (Samples.taxed_approved, redirect)
unfolding approve ensure_access load_claim parse collect_policy_violations hard_violation_message
    violations_of required_levels resolve_required_levels dedup dedup_after sort_unstable or_one
    recorded_levels eligible_approvers approver_role_for_level ledger_user_count insert_postings
    ◌+ℤ◌ ◌-ℤ◌
approves_taxed = refl

approve-IsRecorded_example :
    IsRecorded Samples.env Samples.half_approved Samples.all_approved 10 1 7
approve-IsRecorded_example =
    approve-IsRecorded Samples.env Samples.half_approved 10 1 7 (some (pos 2)) 900 5 approves_last

approve_commit_again_example :
    (Samples.all_approved ≡ Samples.all_approved)
    × (level_already_approved ≡ level_already_approved)
unfolding required_levels resolve_required_levels dedup dedup_after sort_unstable or_one
    recorded_levels claim_total record_step
approve_commit_again_example =
    approve_commit_again Samples.half_approved Samples.all_approved Samples.all_approved 10 1
      Samples.earlier 2 900 5 12 Samples.earlier 1 903 6 level_already_approved commits_last refl
      refl commits_again

eligible_approvers-auditor_example :
    (contains (eligible_approvers Samples.half_approved 1 "Accountant") 12 ≡ true)
    × (ensure_writer Samples.half_approved 12 1 ≡ err forbidden)
eligible_approvers-auditor_example =
    eligible_approvers-auditor Samples.half_approved Samples.ledger Samples.auditor 12 1 refl
      (omega arith) refl refl refl

-- A history of an approval and a payout.
settled : History Samples.env Samples.half_approved Samples.paid_out
settled =
    call (call start (approves 10 1 7 (some (pos 2)) 900 5 redirect approves_last))
      (pays 10 1 7 300 901 902 60 9 pays_out)

History-Trace_example :
    (t : ClaimStatus) × (status_of Samples.paid_out 7 ≡ some (as_str t))
    × Trace partially_approved t
unfolding as_str
History-Trace_example = History-Trace settled 7 partially_approved refl

pay-IsPayout_example : IsPayout Samples.all_approved Samples.paid_out 10 1 7 300 901 902 60 9
pay-IsPayout_example =
    pay-IsPayout Samples.env Samples.all_approved 10 1 7 300 901 902 60 9 refl (omega arith)
      pays_out

-- Two meals and a ride on day 40, and two meals on day 41: each day alone is over or under the cap.
count-eval_category_cap_example :
    count (reports 40) (eval_category_cap Samples.env Samples.cap Samples.outlay) ≡ (
      if exists (is_spent "meals" 40) Samples.outlay
        && ltb_ℤ (pos 200) (sum_ℤ (spent "meals" 40) Samples.outlay)
      then 1
      else 0)
count-eval_category_cap_example =
    count-eval_category_cap Samples.env Samples.cap Samples.outlay
      (record { category = "meals"; max_per_day = pos 200 }) 40 refl

-- Day 40 is over the cap, and day 41 would be over it only with the ride or with day 40.
outlay_reported :
    (count (reports 40) (eval_category_cap Samples.env Samples.cap Samples.outlay) ≡ 1)
    × (count (reports 41) (eval_category_cap Samples.env Samples.cap Samples.outlay) ≡ 0)
unfolding eval_category_cap ◌+ℤ◌
outlay_reported = (refl, refl)

receipt_blocks_example :
    ((user ledger : ℕ) (db' : Db)
      → submit Samples.env
          (Samples.tables (Samples.claim_with "draft") (Samples.receipt_row ∷ []))
          user
          ledger
          7
        ≢ ok db')
    × ((user ledger : ℕ) (query : Option ℤ) (txn now : ℕ) (db' : Db) (answer : Answer)
        → approve Samples.env
            (Samples.tables (Samples.claim_with "draft") (Samples.receipt_row ∷ []))
            user
            ledger
            7
            query
            txn
            now
          ≢ ok (db', answer))
receipt_blocks_example =
    receipt_blocks Samples.env
      (Samples.tables (Samples.claim_with "draft") (Samples.receipt_row ∷ [])) 7
      (Samples.claim_with "draft") Samples.receipt_row Samples.receipts [] [] Samples.lunch [] []
      refl refl refl refl refl refl refl
