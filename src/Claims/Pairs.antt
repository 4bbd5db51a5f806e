-- ===== src/Claims/Pairs.antt =====
-- What the trigger on `postings` admits when the legs of a transaction are inserted one by one.
use openaccounting.Prelude.{
  ℕ, ◌≤◌, Bool, true, false, not, ◌&&◌, ◌≡◌, refl, List, [], ◌∷◌, leb, length, arith, inl, inr,
  subst, ◌≢◌, ==_refl,
}
use openaccounting.Prelude.Int.{ℤ, pos, ◌+ℤ◌, leb_ℤ, eqb_ℤ, int_laws, parts, eq_of_parts, +ℤ_parts}
use openaccounting.Prelude.Tables.{select, count}
use openaccounting.Prelude.Sums.{sum_ℤ}
use openaccounting.Prelude.Results.{Result, ok, Result-cases}
use openaccounting.Posting.Data.{Direction, debit, credit}
use openaccounting.Claims.Data.{Posting}
use openaccounting.Claims.Access.{Error}
use openaccounting.Claims.Trigger.{
  posting_of, debit_of, credit_of, debit_amount, credit_amount, check_posting_balance,
  insert_posting, insert_postings,
}

-- No posting belongs to the transaction yet.
abbrev pub IsFresh : ℕ → List Posting → Type 0
IsFresh txn postings = select (posting_of txn) postings ≡ []

-- The postings of the transaction that are there.
abbrev Holds : ℕ → List Posting → List Posting → Type 0
Holds txn rows postings = select (posting_of txn) postings ≡ rows

count-length {ℓ} : {A : Type ℓ} (p : A → Bool) (xs : List A) → count p xs ≡ length (select p xs)
count-length p [] = refl
count-length p (x ∷ xs) = ground (arith, count-length p xs)

record Inserted (p : Posting) (ps qs : List Posting) : Type 0 where
  result : qs ≡ p ∷ ps
  positive : leb_ℤ p.amount (pos 0) ≡ false
  admitted : check_posting_balance p.transaction_id (p ∷ ps) ≡ false

insert_posting-Inserted :
    (p : Posting) (ps : List Posting) {qs : List Posting}
    → insert_posting true p ps ≡ ok qs
    → Inserted p ps qs
unfolding insert_posting
insert_posting-Inserted p ps h = ground arith

Holds-cons :
    (txn : ℕ) (p : Posting) (rows ps : List Posting)
    → p.transaction_id ≡ txn
    → Holds txn rows ps
    → Holds txn (p ∷ rows) (p ∷ ps)
Holds-cons txn p rows ps e h = rw (e, ==_refl txn, h) refl

tested : (n : ℕ) (a c : ℤ) → 2 ≤ n → (leb 2 n && not (eqb_ℤ a c)) ≡ false → a ≡ c
tested n a c two h = ground (arith, eq_of_parts a c)

-- A second or later row is admitted only if the transaction then balances.
balance_of :
    (txn : ℕ) (rows ps : List Posting)
    → 2 ≤ length rows
    → Holds txn rows ps
    → check_posting_balance txn ps ≡ false
    → sum_ℤ debit_amount rows ≡ sum_ℤ credit_amount rows
unfolding check_posting_balance
balance_of txn rows ps two holds h =
    tested (length rows) _ _ two (rw (count-length (posting_of txn) ps, holds) at h)

-- What is known after one more posting of the transaction is inserted.
record Next (txn : ℕ) (p : Posting) (rest rows ps qs : List Posting) : Type 0 where
  positive : leb_ℤ p.amount (pos 0) ≡ false
  balanced : 1 ≤ length rows → sum_ℤ debit_amount (p ∷ rows) ≡ sum_ℤ credit_amount (p ∷ rows)
  holds : Holds txn (p ∷ rows) (p ∷ ps)
  remaining : insert_postings true rest (p ∷ ps) ≡ ok qs

insert_postings-Next :
    (txn : ℕ) (p : Posting) (rest rows ps : List Posting) {qs : List Posting}
    → Holds txn rows ps
    → p.transaction_id ≡ txn
    → insert_postings true (p ∷ rest) ps ≡ ok qs
    → Next txn p rest rows ps qs
unfolding insert_postings
insert_postings-Next txn p rest rows ps holds e h = elim (Result-cases (insert_posting true p ps)) [
  | inl (ps', good) ↦
      let i = insert_posting-Inserted p ps good in
      let held = Holds-cons txn p rows ps e holds in
      record {
        positive = i.positive;
        balanced = λ one.
            balance_of txn (p ∷ rows) (p ∷ ps) (omega arith) held
              (subst (λ t. check_posting_balance t (p ∷ ps) ≡ false) e i.admitted);
        holds = held;
        remaining = rw (good, i.result) at h;
      }
  | inr (e', bad) ↦ absurd (refused (rw bad at h))
]
  where
    refused : {e : Error} {qs : List Posting} → Result.err e ≡ ok qs → ⊥
    refused x = cc

-- Two legs that are inserted one by one are positive and balance each other.
pub record Pair (p q : Posting) (rest ps qs : List Posting) : Type 0 where
  pub first_positive : leb_ℤ p.amount (pos 0) ≡ false
  pub second_positive : leb_ℤ q.amount (pos 0) ≡ false
  pub balanced : debit_amount q +ℤ debit_amount p ≡ credit_amount q +ℤ credit_amount p
  pub remaining : insert_postings true rest (q ∷ p ∷ ps) ≡ ok qs

pub insert_postings-Pair :
    (txn : ℕ) (p q : Posting) (rest ps : List Posting) {qs : List Posting}
    → IsFresh txn ps
    → p.transaction_id ≡ txn
    → q.transaction_id ≡ txn
    → insert_postings true (p ∷ q ∷ rest) ps ≡ ok qs
    → Pair p q rest ps qs
insert_postings-Pair txn p q rest ps fresh hp hq h =
    let one = insert_postings-Next txn p (q ∷ rest) [] ps fresh hp h in
    let two = insert_postings-Next txn q rest (p ∷ []) (p ∷ ps) one.holds hq one.remaining in
    record {
      first_positive = one.positive;
      second_positive = two.positive;
      balanced = omega (int_laws, parts (two.balanced (omega arith)));
      remaining = two.remaining;
    }

-- A positive leg on one side puts a balance out.
unbalanced :
    (t : Direction) (a d c : ℤ)
    → leb_ℤ a (pos 0) ≡ false
    → d ≡ c
    → debit_of t a +ℤ d ≢ credit_of t a +ℤ c
unbalanced debit a d c positive e h =
    ground (arith, parts e, parts h, +ℤ_parts a d, +ℤ_parts (pos 0) c)
unbalanced credit a d c positive e h =
    ground (arith, parts e, parts h, +ℤ_parts a c, +ℤ_parts (pos 0) d)

-- No third leg can be inserted one by one.
pub insert_postings_third :
    (txn : ℕ) (p q r : Posting) (rest ps : List Posting) {qs : List Posting}
    → IsFresh txn ps
    → p.transaction_id ≡ txn
    → q.transaction_id ≡ txn
    → r.transaction_id ≡ txn
    → insert_postings true (p ∷ q ∷ r ∷ rest) ps ≢ ok qs
insert_postings_third txn p q r rest ps fresh hp hq hr h =
    let one = insert_postings-Next txn p (q ∷ r ∷ rest) [] ps fresh hp h in
    let two = insert_postings-Next txn q (r ∷ rest) (p ∷ []) (p ∷ ps) one.holds hq one.remaining in
    let three =
      insert_postings-Next txn r rest (q ∷ p ∷ []) (q ∷ p ∷ ps) two.holds hr two.remaining in
    unbalanced r.direction r.amount _ _ three.positive (two.balanced (omega arith))
      (three.balanced (omega arith))
