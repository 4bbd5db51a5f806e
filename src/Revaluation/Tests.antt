-- ===== src/Revaluation/Tests.antt =====
-- The theorems about the revaluation at a dollar account of a ledger in euros.
use openaccounting.Prelude.{ℕ, ◌+◌, false, some, none, [], ◌∷◌, ◌≡◌}
use openaccounting.Prelude.Int.{ℤ, pos, negsuc}
use openaccounting.Posting.Data.{debit, credit, Posting}
use openaccounting.Posting.Runs.{calendar, jan_1, books, ids}
use openaccounting.Posting.Checks.{ledger_by}
use openaccounting.Revaluation.Run.{Books, Request, candidates, candidate_rows, run_revaluation}
use openaccounting.Revaluation.Again.{run_revaluation-candidates}

abbrev leg : ℕ → ℕ → ℤ → Posting
leg id account x = record {
  id = id;
  transaction_id = 1;
  account_id = account;
  amount = elim x [ pos n ↦ n | negsuc n ↦ n + 1 ];
  direction = elim x [ pos n ↦ debit | negsuc n ↦ credit ];
  memo = none;
  foreign_amount = some 1000000;
  foreign_currency = some "USD";
  cost_center_id = none;
  project_id = none;
}

-- A hundred dollars, bought at 80 euros; the rate is 0.9.
abbrev dollars : Books
dollars = record {
  db = record books { postings = leg 1 10 (pos 800000) ∷ leg 2 11 (negsuc 799999) ∷ [] };
  accounts =
      record {
        id = 10;
        ledger_id = 1;
        name = "Dollars";
        type_str = "ASSET";
        currency = "USD";
        is_archived = false;
      }
      ∷ [];
  revaluations = [];
}

abbrev january : Request
january = record {
  ledger_id = 1;
  date = jan_1;
  actor = 3;
  period_month = jan_1;
  describe = λ c. c;
  memo = λ c. c;
  ids = ids;
  gain_id = λ i. 90;
  loss_id = λ i. 91;
}

-- The account still stands at 80 euros for the next revaluation.
run_revaluation-candidates_example :
    candidates 1 (run_revaluation calendar january dollars).1
    ≡ record {
      account_id = 10;
      currency = "USD";
      foreign_balance = pos 1000000;
      book_value = pos 800000;
    }
      ∷ []
unfolding candidates candidate_rows ledger_by
run_revaluation-candidates_example = run_revaluation-candidates calendar january dollars 1
