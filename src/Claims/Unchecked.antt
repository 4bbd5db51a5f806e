-- ===== src/Claims/Unchecked.antt =====
-- The posting of a claim while the trigger on `postings` is disabled (`approve`).
use openaccounting.Prelude.{
  ℕ, ◌+◌, false, ◌≡◌, sym, ap, ◌∙◌, some, List, ◌∷◌, inl, inr, Option-cases, if◌then◌else◌,
}
use openaccounting.Prelude.Int.{ℤ, pos, ◌-ℤ◌, int_laws, parts}
use openaccounting.Prelude.Tables.{select}
use openaccounting.Prelude.Sums.{sum, sum_ℤ, sum_ℤ-select, sum_ℤ_plus}
use openaccounting.Prelude.Results.{ok, bind_ok, ok_inj}
use openaccounting.Claims.Data.{Account, Line, Posting, Db}
use openaccounting.Claims.Access.{Loaded}
use openaccounting.Claims.Check.{lines_of}
use openaccounting.Claims.Trigger.{posting_of, debit_amount, credit_amount, insert_postings}
use openaccounting.Claims.Pairs.{IsFresh}
use openaccounting.Claims.Approve.{
  Group, advance_total, grouped, net_expense, claim_legs, payable_account, advance_account,
  post_claim,
}
use openaccounting.Claims.Fully.{List-cases, refused}
use openaccounting.Claims.LegTotals.{
  sum_ℤ-insert_postings, debited, credited, group_debits, group_credits, advance_credited,
  last_legs, last_debits, last_credits, net_expense-grouped, tax-grouped, sub_ℕ_difference,
}

-- The postings of the claim's transaction while nothing checks their balance: the debits are the
-- expenses and the tax less the advances; the credits are the expenses less twice the advances, and
-- the advances where the ledger has an account for them.
pub record IsUnchecked (db db' : Db) (claim ledger txn : ℕ) : Type 0 where
  pub payable : Account
  pub is_payable : payable_account db ledger ≡ some payable
  pub debits :
      sum_ℤ debit_amount (select (posting_of txn) db'.postings)
      ≡ pos (
          sum (λ (l : Line). l.amount) (lines_of db claim)
          + sum (λ (l : Line). l.tax_amount) (lines_of db claim))
        -ℤ pos (sum (λ (l : Line). l.advance_amount) (lines_of db claim))
  pub credits :
      sum_ℤ credit_amount (select (posting_of txn) db'.postings)
      ≡ pos (
          sum (λ (l : Line). l.amount) (lines_of db claim)
          + advance_credited
              (advance_account db ledger)
              (sum (λ (l : Line). l.advance_amount) (lines_of db claim)))
        -ℤ pos (
            sum (λ (l : Line). l.advance_amount) (lines_of db claim)
            + sum (λ (l : Line). l.advance_amount) (lines_of db claim))

fresh_sum :
    (f : Posting → ℤ) (txn : ℕ) (ps : List Posting)
    → IsFresh txn ps
    → sum_ℤ (λ p. if posting_of txn p then f p else pos 0) ps ≡ pos 0
fresh_sum f txn ps fresh = sym (sum_ℤ-select f (posting_of txn) ps) ∙ ap (sum_ℤ f) fresh

module _ (db : Db) (ledger txn payable : ℕ) (lines : List Line)
    (fresh : IsFresh txn db.postings) where
  abbrev legs : List Posting
  legs = claim_legs txn db ledger payable lines

  claim_debits :
      {qs : List Posting}
      → insert_postings false legs db.postings ≡ ok qs
      → sum_ℤ debit_amount (select (posting_of txn) qs)
        ≡ pos (sum (λ (l : Line). l.amount) lines + sum (λ (l : Line). l.tax_amount) lines)
          -ℤ pos (sum (λ (l : Line). l.advance_amount) lines)
  unfolding claim_legs advance_total
  claim_debits {qs} h =
      let net = net_expense (grouped lines) -ℤ pos (advance_total lines) in
      let last = last_legs txn payable net (advance_total lines) (advance_account db ledger) in
      sum_ℤ-select debit_amount (posting_of txn) qs
      ∙ omega (
        int_laws,
        parts (sum_ℤ-insert_postings (debited txn) legs db.postings h),
        parts (group_debits txn (grouped lines) last),
        parts (last_debits txn payable net (advance_total lines) (advance_account db ledger)),
        parts (fresh_sum debit_amount txn db.postings fresh),
        parts (sum_ℤ_plus (λ (g : Group). g.net) (λ (g : Group). pos g.tax) (grouped lines)),
        parts (
            net_expense-grouped lines
            ∙ sub_ℕ_difference (sum (λ (l : Line). l.amount) lines) (advance_total lines)),
        parts (tax-grouped lines),
      )

  claim_credits :
      {qs : List Posting}
      → insert_postings false legs db.postings ≡ ok qs
      → sum_ℤ credit_amount (select (posting_of txn) qs)
        ≡ pos (
            sum (λ (l : Line). l.amount) lines
            + advance_credited
                (advance_account db ledger)
                (sum (λ (l : Line). l.advance_amount) lines))
          -ℤ pos (
              sum (λ (l : Line). l.advance_amount) lines
              + sum (λ (l : Line). l.advance_amount) lines)
  unfolding claim_legs advance_total
  claim_credits {qs} h =
      let net = net_expense (grouped lines) -ℤ pos (advance_total lines) in
      let last = last_legs txn payable net (advance_total lines) (advance_account db ledger) in
      sum_ℤ-select credit_amount (posting_of txn) qs
      ∙ omega (
        int_laws,
        parts (sum_ℤ-insert_postings (credited txn) legs db.postings h),
        parts (group_credits txn (grouped lines) last),
        parts (last_credits txn payable net (advance_total lines) (advance_account db ledger)),
        parts (fresh_sum credit_amount txn db.postings fresh),
        parts (
            net_expense-grouped lines
            ∙ sub_ℕ_difference (sum (λ (l : Line). l.amount) lines) (advance_total lines)),
      )

pub post_claim-IsUnchecked :
    (db : Db) (c : Loaded) (user ledger txn now : ℕ) {db' : Db}
    → db.trigger_enabled ≡ false
    → IsFresh txn db.postings
    → post_claim db c user ledger txn now ≡ ok db'
    → IsUnchecked db db' c.claim.id ledger txn
unfolding post_claim
post_claim-IsUnchecked db c user ledger txn now {db'} off fresh h =
    elim (Option-cases (payable_account db ledger)) [
      | inl no_payable ↦ absurd (refused (rw no_payable at h))
      | inr (payable, is_payable) ↦ elim (List-cases (lines_of db c.claim.id)) [
        | inl no_lines ↦ absurd (refused (rw (is_payable, no_lines) at h))
        | inr (l, ls, lines) ↦
            let (qs, good, done) =
              bind_ok
                (insert_postings false (claim_legs txn db ledger payable.id (l ∷ ls)) db.postings) _
                (rw (is_payable, lines, off) at h) in
            let posted : db'.postings ≡ qs = ap (λ (d : Db). d.postings) (ok_inj done) in
            record {
              payable = payable;
              is_payable = is_payable;
              debits =
                  rw (posted, lines) (claim_debits db ledger txn payable.id (l ∷ ls) fresh good);
              credits =
                  rw (posted, lines) (claim_credits db ledger txn payable.id (l ∷ ls) fresh good);
            }
      ]
    ]
