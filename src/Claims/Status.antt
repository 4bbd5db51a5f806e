-- ===== src/Claims/Status.antt =====
-- `ClaimStatus` (src/domain/reimbursement.rs): its names, and the transitions that it allows.
use openaccounting.Prelude.{String, Bool, true, false, Option, none, some, if◌then◌else◌, str_eq}

pub data ClaimStatus : Type 0 where
  draft submitted partially_approved fully_approved approved rejected paid : ClaimStatus

unfoldable pub as_str : ClaimStatus → String
as_str draft = "draft"
as_str submitted = "submitted"
as_str partially_approved = "partially_approved"
as_str fully_approved = "fully_approved"
as_str approved = "approved"
as_str rejected = "rejected"
as_str paid = "paid"

unfoldable pub parse : String → Option ClaimStatus
parse s =
    if str_eq s "draft"
    then some draft
    else if str_eq s "submitted"
    then some submitted
    else if str_eq s "partially_approved"
    then some partially_approved
    else if str_eq s "fully_approved"
    then some fully_approved
    else if str_eq s "approved"
    then some approved
    else if str_eq s "rejected"
    then some rejected
    else if str_eq s "paid"
    then some paid
    else none

unfoldable pub can_transition_to : ClaimStatus → ClaimStatus → Bool
can_transition_to draft t = elim t [
  | submitted ↦ true
  | draft ↦ false
  | partially_approved ↦ false
  | fully_approved ↦ false
  | approved ↦ false
  | rejected ↦ false
  | paid ↦ false
]
can_transition_to submitted t = elim t [
  | partially_approved ↦ true
  | fully_approved ↦ true
  | rejected ↦ true
  | draft ↦ false
  | submitted ↦ false
  | approved ↦ false
  | paid ↦ false
]
can_transition_to partially_approved t = elim t [
  | partially_approved ↦ true
  | fully_approved ↦ true
  | draft ↦ false
  | submitted ↦ false
  | approved ↦ false
  | rejected ↦ false
  | paid ↦ false
]
can_transition_to fully_approved t = elim t [
  | paid ↦ true
  | draft ↦ false
  | submitted ↦ false
  | partially_approved ↦ false
  | fully_approved ↦ false
  | approved ↦ false
  | rejected ↦ false
]
can_transition_to approved t = elim t [
  | paid ↦ true
  | draft ↦ false
  | submitted ↦ false
  | partially_approved ↦ false
  | fully_approved ↦ false
  | approved ↦ false
  | rejected ↦ false
]
can_transition_to rejected t = elim t [
  | draft ↦ true
  | submitted ↦ false
  | partially_approved ↦ false
  | fully_approved ↦ false
  | approved ↦ false
  | rejected ↦ false
  | paid ↦ false
]
can_transition_to paid t = false
