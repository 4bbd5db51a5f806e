-- ===== src/Claims/Samples.antt =====
-- A ledger with an owner, an accountant and an auditor, and a claim of the accountant.
use openaccounting.Prelude.{ℕ, ◌+◌, String, true, false, none, some, List, [], ◌∷◌}
use openaccounting.Prelude.Int.{pos}
use openaccounting.Claims.Data.{
  Ledger, Member, Account, ReceiptRequiredConfig, PolicyRow, Claim, Line, Txn, Db, Env,
}
use openaccounting.Claims.Policies.{Policy, PolicyLine, category_cap, hard}
use openaccounting.Claims.Status.{partially_approved}
use openaccounting.Claims.Access.{Loaded}
use openaccounting.Claims.Approve.{leg, credit_leg}

abbrev pub env : Env
env = record {
  hex = λ n. (48 + n) ∷ [];
  uppercase = λ s. s;
  names_bank = λ s. false;
  as_i64 = λ n. n;
}

abbrev pub ledger : Ledger
ledger = record { id = 1; owner_id = 10; base_currency = 85 ∷ 83 ∷ 68 ∷ [] }

abbrev pub auditor : Member
auditor = record { ledger_id = 1; user_id = 12; role = "auditor" }

abbrev pub accountant : Member
accountant = record { ledger_id = 1; user_id = 11; role = "accountant" }

abbrev pub meals : Account
meals = record {
  id = 100;
  ledger_id = 1;
  name = "meals";
  kind = "EXPENSE";
  subtype = "OPERATING_EXPENSE";
}

abbrev pub owed : Account
owed = record {
  id = 200;
  ledger_id = 1;
  name = "owed";
  kind = "LIABILITY";
  subtype = "EMPLOYEE_PAYABLE";
}

abbrev pub cash : Account
cash = record { id = 300; ledger_id = 1; name = "cash"; kind = "ASSET"; subtype = "CURRENT_ASSET" }

abbrev pub claim_with : String → Claim
claim_with status = record {
  id = 7;
  ledger_id = 1;
  short_id = 55 ∷ [];
  employee_id = 11;
  employee_name = 65 ∷ [];
  title = 84 ∷ [];
  currency = 85 ∷ 83 ∷ 68 ∷ [];
  status = status;
  approved_by = none;
  rejected_reason = none;
  payout_account_id = none;
}

abbrev pub lunch : Line
lunch = record {
  claim_id = 7;
  txn_date = 40;
  amount = 600;
  gl_account_id = 100;
  tax_amount = 0;
  advance_amount = 0;
}

-- Levels 1 and 2 are required from 0 and from 500; level 1 is recorded.
abbrev pub tables : Claim → List PolicyRow → Db
tables c policies = record {
  ledgers = ledger ∷ [];
  members = accountant ∷ auditor ∷ [];
  users =
      record { id = 10; role = "user" }
      ∷ record { id = 11; role = "user" }
      ∷ record { id = 12; role = "user" }
      ∷ [];
  accounts = meals ∷ owed ∷ cash ∷ [];
  approval_policies =
      record { ledger_id = 1; min_amount = 0; approver_role = "Accountant"; level = 1 }
      ∷ record { ledger_id = 1; min_amount = 500; approver_role = "Admin"; level = 2 }
      ∷ [];
  policies = policies;
  claims = c ∷ [];
  lines = lunch ∷ [];
  steps = record { claim_id = 7; level = 1; approver_id = 12 } ∷ [];
  events = [];
  transactions = [];
  postings = [];
  trigger_enabled = true;
}

abbrev pub half_approved : Db
half_approved = tables (claim_with "partially_approved") []

abbrev pub receipts : ReceiptRequiredConfig
receipts = record { min_amount = pos 500 }

abbrev pub receipt_row : PolicyRow
receipt_row = record {
  ledger_id = 1;
  name = "receipts";
  kind = "receipt_required";
  config = record {
    as_category_cap = none;
    as_receipt_required = some receipts;
    as_per_diem = none;
  };
  severity = "hard";
  is_active = true;
}

abbrev pub cap : Policy
cap = record {
  name = "cap";
  kind = category_cap;
  config = record {
    as_category_cap = some (record { category = "meals"; max_per_day = pos 200 });
    as_receipt_required = none;
    as_per_diem = none;
  };
  severity = hard;
}

abbrev pub outlay_of : String → ℕ → ℕ → PolicyLine
outlay_of category day n = record {
  category = category;
  txn_date = day;
  amount = pos n;
  has_receipt = true;
}

abbrev pub outlay : List PolicyLine
outlay =
    outlay_of "meals" 40 150
    ∷ outlay_of "meals" 41 90
    ∷ outlay_of "travel" 41 300
    ∷ outlay_of "meals" 40 80
    ∷ outlay_of "meals" 41 60
    ∷ []

abbrev pub booking : Txn
booking = record {
  id = 900;
  ledger_id = 1;
  txn_date = 40;
  payee = 65 ∷ [];
  reference = 55 ∷ [];
  currency = 85 ∷ 83 ∷ 68 ∷ [];
  created_by = 10;
  created_at = 5;
}

-- The claim after its owner has approved level 2.
abbrev pub all_approved : Db
all_approved = record half_approved {
  claims = record (claim_with "fully_approved") { approved_by = some 10 } ∷ [];
  steps =
      record { claim_id = 7; level = 2; approver_id = 10 }
      ∷ record { claim_id = 7; level = 1; approver_id = 12 }
      ∷ [];
  events = record { claim_id = 7; actor_id = 10; event_type = "approve" } ∷ [];
  transactions = booking ∷ [];
  postings = credit_leg 900 200 (pos 600) ∷ leg 900 100 (pos 600) ∷ [];
}

-- The claim with a tax of 60 after the trigger on postings is disabled, and after its approval.
abbrev pub taxed : Db
taxed = record half_approved {
  lines = record lunch { tax_amount = 60 } ∷ [];
  trigger_enabled = false;
}

abbrev pub taxed_approved : Db
taxed_approved = record all_approved {
  lines = record lunch { tax_amount = 60 } ∷ [];
  postings = credit_leg 900 200 (pos 600) ∷ leg 900 100 (pos 60) ∷ leg 900 100 (pos 600) ∷ [];
  trigger_enabled = false;
}

abbrev pub payout : ℕ → Txn
payout id = record booking { id = id; txn_date = 60; created_at = 9 }

-- The claim after its payout.
abbrev pub paid_out : Db
paid_out = record all_approved {
  claims = record (claim_with "paid") { approved_by = some 10; payout_account_id = some 300 } ∷ [];
  events =
      record { claim_id = 7; actor_id = 10; event_type = "pay" }
      ∷ record { claim_id = 7; actor_id = 10; event_type = "approve" }
      ∷ [];
  transactions = payout 902 ∷ payout 901 ∷ booking ∷ [];
  postings =
      credit_leg 902 300 (pos 600)
      ∷ leg 902 200 (pos 600)
      ∷ credit_leg 900 200 (pos 600)
      ∷ leg 900 100 (pos 600)
      ∷ [];
}

-- The claim as a call has read it before the last approval.
abbrev pub earlier : Loaded
earlier = record { claim = claim_with "partially_approved"; status = partially_approved }
