-- ===== src/Claims/Fully.antt =====
-- The posting of a claim with its last approval (`approve`), while the trigger on `postings` is
-- enabled, and what it writes besides in any case.
use openaccounting.Prelude.{
  ℕ, ◌+◌, ◌<◌, ◌≡◌, refl, ap, ◌∙◌, some, true, List, [], ◌∷◌, arith, ◌⊎◌, inl, inr, Option-cases,
}
use openaccounting.Prelude.Int.{pos, parts}
use openaccounting.Prelude.Tables.{update}
use openaccounting.Prelude.Sums.{sum, sum_plus}
use openaccounting.Prelude.Results.{ok, err, Result-cases, bind_ok, ok_inj}
use openaccounting.Claims.Data.{Account, Line, Posting, Db}
use openaccounting.Claims.Access.{Error, claim_by, Loaded}
use openaccounting.Claims.Check.{lines_of}
use openaccounting.Claims.Trigger.{insert_postings}
use openaccounting.Claims.Pairs.{IsFresh}
use openaccounting.Claims.Booked.{legs-IsBooked}
use openaccounting.Claims.Grouped.{grouped-single, length-grouped}
use openaccounting.Claims.Approve.{
  Group, leg, credit_leg, claim_total, advance_total, grouped, claim_legs, payable_account,
  advance_account, post_claim,
}

abbrev tax_total : List Line → ℕ
tax_total lines = sum (λ (l : Line). l.tax_amount) lines

-- The claim is posted as one debit of one account and one credit of the account that is payable,
-- each of the total of the claim, which holds no tax and no advance.
pub record IsPosted (db db' : Db) (claim ledger txn : ℕ) : Type 0 where
  pub account : ℕ
  pub payable : Account
  pub is_payable : payable_account db ledger ≡ some payable
  pub untaxed : tax_total (lines_of db claim) ≡ 0
  pub no_advance : advance_total (lines_of db claim) ≡ 0
  pub positive : 0 < claim_total db claim
  pub postings :
      db'.postings
      ≡ credit_leg txn payable.id (pos (claim_total db claim))
        ∷ leg txn account (pos (claim_total db claim))
        ∷ db.postings

booked_net :
    (lines : List Line) (g : Group)
    → grouped lines ≡ g ∷ []
    → g.tax ≡ 0
    → advance_total lines ≡ 0
    → (g.net ≡ pos (sum (λ (l : Line). l.amount + l.tax_amount) lines)) × (tax_total lines ≡ 0)
booked_net lines g single untaxed no_advance =
    let (net, tax) = grouped-single lines g single in
    let none_taxed : tax_total lines ≡ 0 = omega arith in
    let plus = sum_plus (λ (l : Line). l.amount) (λ (l : Line). l.tax_amount) lines in
    (net ∙ ground (arith, plus), none_taxed)

pub List-cases :
    {A : Type 0} (xs : List A) → (xs ≡ []) ⊎ ((x : A) × (rest : List A) × (xs ≡ x ∷ rest))
List-cases [] = inl refl
List-cases (x ∷ rest) = inr (x, rest, refl)

pub refused : {A : Type 0} {e : Error} {r : A} → err e ≡ ok r → ⊥
refused x = cc

module _ (db : Db) (c : Loaded) (user ledger txn now : ℕ) (fresh : IsFresh txn db.postings) where
  booked_IsPosted :
      (payable : Account) (l : Line) (ls : List Line) (qs : List Posting) {db' : Db}
      → payable_account db ledger ≡ some payable
      → lines_of db c.claim.id ≡ l ∷ ls
      → insert_postings true (claim_legs txn db ledger payable.id (l ∷ ls)) db.postings ≡ ok qs
      → db'.postings ≡ qs
      → IsPosted db db' c.claim.id ledger txn
  unfolding claim_legs claim_total
  booked_IsPosted payable l ls qs is_payable lines h done =
      let b =
        legs-IsBooked txn payable.id db.postings fresh (grouped (l ∷ ls)) (advance_total (l ∷ ls))
          (advance_account db ledger) (length-grouped l ls) h in
      let (net, untaxed) = booked_net (l ∷ ls) b.group b.single b.untaxed b.no_advance in
      record {
        account = b.group.gl_account_id;
        payable = payable;
        is_payable = is_payable;
        untaxed = rw lines untaxed;
        no_advance = rw lines b.no_advance;
        positive = rw lines (ground (arith, b.positive, parts net));
        postings = rw lines (
            done
            ∙ (b.posted
                ∙ ap
                    (λ v.
                      credit_leg txn payable.id v ∷ leg txn b.group.gl_account_id v ∷ db.postings)
                    net));
      }

  pub post_claim-IsPosted :
      {db' : Db}
      → db.trigger_enabled ≡ true
      → post_claim db c user ledger txn now ≡ ok db'
      → IsPosted db db' c.claim.id ledger txn
  unfolding post_claim
  post_claim-IsPosted {db'} on h = elim (Option-cases (payable_account db ledger)) [
    | inl no_payable ↦ absurd (refused (rw no_payable at h))
    | inr (payable, is_payable) ↦ elim (List-cases (lines_of db c.claim.id)) [
      | inl no_lines ↦ absurd (refused (rw (is_payable, no_lines) at h))
      | inr (l, ls, lines) ↦
          elim (Result-cases
            (insert_postings true (claim_legs txn db ledger payable.id (l ∷ ls)) db.postings)) [
              | inr (e, bad) ↦ absurd (refused (rw (is_payable, lines, on, bad) at h))
              | inl (qs, good) ↦
                  booked_IsPosted payable l ls qs is_payable lines good
                    (ap (λ (d : Db). d.postings) (ok_inj (rw (is_payable, lines, on, good) at h)))
            ]
    ]
  ]

-- The posting of a claim writes the transaction, the postings, the event and the row of the claim.
pub record IsRest (db db' : Db) (claim user : ℕ) : Type 0 where
  pub claims :
      db'.claims
      ≡ update
          (claim_by claim)
          (λ r. record r { status = "fully_approved"; approved_by = some user })
          db.claims
  pub lines_kept : db'.lines ≡ db.lines
  pub steps_kept : db'.steps ≡ db.steps
  pub approval_policies_kept : db'.approval_policies ≡ db.approval_policies

pub post_claim-IsRest :
    (db : Db) (c : Loaded) (user ledger txn now : ℕ) {db' : Db}
    → post_claim db c user ledger txn now ≡ ok db'
    → IsRest db db' c.claim.id user
unfolding post_claim
post_claim-IsRest db c user ledger txn now {db'} h =
    elim (Option-cases (payable_account db ledger)) [
      | inl no_payable ↦ absurd (refused (rw no_payable at h))
      | inr (payable, is_payable) ↦ elim (List-cases (lines_of db c.claim.id)) [
        | inl no_lines ↦ absurd (refused (rw (is_payable, no_lines) at h))
        | inr (l, ls, lines) ↦
            let done =
              bind_ok
                (insert_postings db.trigger_enabled (claim_legs txn db ledger payable.id (l ∷ ls))
                  db.postings)
                _ (rw (is_payable, lines) at h) in
            let e = ok_inj done.2 in
            record {
              claims = ap (λ (d : Db). d.claims) e;
              lines_kept = ap (λ (d : Db). d.lines) e;
              steps_kept = ap (λ (d : Db). d.steps) e;
              approval_policies_kept = ap (λ (d : Db). d.approval_policies) e;
            }
      ]
    ]
