-- ===== src/Claims/Payout.antt =====
-- What the payout of a claim posts (`pay`).
use openaccounting.Prelude.{
  ℕ, ◌≤◌, Bool, true, false, ◌≡◌, ◌≢◌, refl, sym, subst, none, some, List, [], ◌∷◌, ap, ◌∙◌, ◌==◌,
  arith, All, All-map, leb, Option-cases, Bool-cases, inl, inr, str_eq, if◌then◌else◌,
}
use mathlib.Core.List.{Memᴰ}
use mathlib.Core.List.Memᴰ
use openaccounting.Prelude.Int.{ℤ, pos, leb_ℤ}
use openaccounting.Prelude.Tables.{find, select}
use openaccounting.Prelude.Sums.{sum_ℤ, sum_ℤ_same, sum_ℤ-select, insert_by, order_by}
use openaccounting.Prelude.Results.{ok}
use openaccounting.Prelude.Texts.{text_eq}
use openaccounting.Posting.Data.{debit, credit}
use openaccounting.Claims.Data.{Account, Claim, Txn, Posting, Db, Env}
use openaccounting.Claims.Access.{Loaded, load_claim}
use openaccounting.Claims.Trigger.{posting_of, credit_amount, insert_postings}
use openaccounting.Claims.Pairs.{IsFresh}
use openaccounting.Claims.Approve.{leg, credit_leg, payable_account}
use openaccounting.Claims.Pay.{
  first_of, refers_to, credits_payable, latest_txn, net_payable, payout_row, pay,
}
use openaccounting.Claims.Paid.{pay_done}

-- The amount of a posting if it credits, within the transaction, an account payable to employees.
abbrev pub owed_by : Db → ℕ → Posting → ℤ
owed_by db txn p = elim p.direction [
  | debit ↦ pos 0
  | credit ↦ elim (find (λ (a : Account). a.id == p.account_id) db.accounts) [
    | none ↦ pos 0
    | some a ↦
        if str_eq a.subtype "EMPLOYEE_PAYABLE"
        then (if p.transaction_id == txn then p.amount else pos 0)
        else pos 0
  ]
]

net_payable-owed_by : (db : Db) (txn : ℕ) → net_payable db txn ≡ sum_ℤ (owed_by db txn) db.postings
unfolding net_payable
net_payable-owed_by db txn =
    sum_ℤ-select credit_amount (credits_payable db txn) db.postings
    ∙ sum_ℤ_same _ (owed_by db txn) db.postings (λ p. ground arith)

-- The transaction is of the ledger and has the claim's reference.
abbrev pub IsOf : ℕ → Claim → Txn → Type 0
IsOf ledger c t = (t.ledger_id ≡ ledger) × (text_eq t.reference c.short_id ≡ true)

abbrev newest_first : Txn → Txn → Bool
newest_first t u = leb u.created_at t.created_at

first_of-insert_by :
    (t : Txn) (ts : List Txn)
    → first_of (insert_by newest_first t ts)
      ≡ some (elim (first_of ts) [ none ↦ t | some u ↦ if newest_first t u then t else u ])
first_of-insert_by t [] = refl
first_of-insert_by t (u ∷ ts) = ground arith

-- The first of the ordered rows is one of them, and none is newer.
record IsNewest (t : Txn) (ts : List Txn) : Type 0 where
  stored : Memᴰ t ts
  newest : All (λ u. u.created_at ≤ t.created_at) ts

none_first : (ts : List Txn) → first_of (order_by newest_first ts) ≡ none → ts ≡ []
none_first [] h = refl
none_first (t ∷ ts) h =
    let e = first_of-insert_by t (order_by newest_first ts) in absurd (ground arith)

order_by-IsNewest :
    (ts : List Txn) (b : Txn) → first_of (order_by newest_first ts) ≡ some b → IsNewest b ts
order_by-IsNewest [] b h = cc
order_by-IsNewest (t ∷ ts) b h =
    let e = first_of-insert_by t (order_by newest_first ts) in
    elim (Option-cases (first_of (order_by newest_first ts))) [
      | inl missing ↦
          let same : b ≡ t = ground arith in
          record {
            stored = Memᴰ.head same;
            newest =
                rw (none_first ts missing)
                  (let le : t.created_at ≤ b.created_at = ground arith in (le, tt));
          }
      | inr (u, found) ↦
          let w = order_by-IsNewest ts u found in
          elim (Bool-cases (newest_first t u)) [
            | inl first ↦
                let same : b ≡ t = ground arith in
                let le : u.created_at ≤ b.created_at = ground arith in
                record {
                  stored = Memᴰ.head same;
                  newest = (
                    (let le : t.created_at ≤ b.created_at = ground arith in le),
                    All-map _ (λ v. v.created_at ≤ b.created_at) ts (λ v k. omega arith) w.newest,
                  );
                }
            | inr later ↦
                let same : b ≡ u = ground arith in
                let le : t.created_at ≤ b.created_at = ground arith in
                record {
                  stored = subst (λ v. Memᴰ v (t ∷ ts)) (sym same) (Memᴰ.tail w.stored);
                  newest = (
                    le,
                    subst (λ (v : Txn). All (λ x. x.created_at ≤ v.created_at) ts) (sym same)
                        w.newest,
                  );
                }
          ]
    ]

Memᴰ-select :
    (p : Txn → Bool) (t : Txn) (ts : List Txn) → Memᴰ t (select p ts) → Memᴰ t ts × (p t ≡ true)
Memᴰ-select p t [] h = absurd (Memᴰ.not-nil h)
Memᴰ-select p t (u ∷ ts) h = elim (Bool-cases (p u)) [
  | inr off ↦ let (rest, on) = Memᴰ-select p t ts (rw off at h) in (Memᴰ.tail rest, on)
  | inl on ↦ elim (Memᴰ.cases_cons (rw on at h)) [
    | inl e ↦ (Memᴰ.head e, rw e on)
    | inr later ↦ let (rest, fits) = Memᴰ-select p t ts later in (Memᴰ.tail rest, fits)
  ]
]

All-select :
    (p : Txn → Bool) (P : Txn → Type 0) (ts : List Txn)
    → All P (select p ts)
    → All (λ t. p t ≡ true → P t) ts
All-select p P [] h = tt
All-select p P (t ∷ ts) h = elim (Bool-cases (p t)) [
  | inr off ↦ (λ on. absurd (ground arith), All-select p P ts (rw off at h))
  | inl on ↦ let k : P t × All P (select p ts) = rw on at h in (λ _. k.0, All-select p P ts k.1)
]

-- The two legs are inserted, of a positive amount, with the trigger and without it.
insert_two :
    (enabled : Bool) (p q : Posting) (ps : List Posting) {qs : List Posting}
    → insert_postings enabled (p ∷ q ∷ []) ps ≡ ok qs
    → (leb_ℤ p.amount (pos 0) ≡ false) × (qs ≡ q ∷ p ∷ ps)
unfolding insert_postings
insert_two enabled p q ps h = ground arith

-- The payout of a claim: the account that is payable is debited and the payout account credited
-- with the same amount. It is what the credits of a transaction with the claim's reference, of
-- which none in the ledger is newer, add to accounts payable to employees.
pub record IsPayout (db db' : Db) (user ledger claim payout first second today now : ℕ)
    : Type 0 where
  pub c : Loaded
  pub loaded : load_claim db claim ledger ≡ ok c
  pub payable : Account
  pub is_payable : payable_account db ledger ≡ some payable
  pub booked : Txn
  pub stored : Memᴰ booked db.transactions
  pub is_of : IsOf ledger c.claim booked
  pub newest : All (λ t. IsOf ledger c.claim t → t.created_at ≤ booked.created_at) db.transactions
  pub amount : ℤ
  pub owed : amount ≡ sum_ℤ (owed_by db booked.id) db.postings
  pub positive : leb_ℤ amount (pos 0) ≡ false
  pub postings :
      db'.postings ≡ credit_leg second payout amount ∷ leg second payable.id amount ∷ db.postings
  pub headers :
      db'.transactions
      ≡ payout_row second ledger c.claim user today now
        ∷ payout_row first ledger c.claim user today now
        ∷ db.transactions
  pub empty_header : IsFresh first db'.postings

skipped :
    (first second a b : ℕ) (v : ℤ) (ps : List Posting)
    → second ≢ first
    → IsFresh first ps
    → IsFresh first (credit_leg second a v ∷ leg second b v ∷ ps)
skipped first second a b v ps other fresh =
    let e : (second == first) ≡ false = ground arith in rw e fresh

-- The transaction that is paid after.
latest_txn-IsNewest :
    (db : Db) (ledger : ℕ) (c : Claim) (b : Txn)
    → latest_txn db ledger c ≡ some b
    → Memᴰ b db.transactions
      × IsOf ledger c b
      × All (λ t. IsOf ledger c t → t.created_at ≤ b.created_at) db.transactions
unfolding latest_txn
latest_txn-IsNewest db ledger c b h =
    let w = order_by-IsNewest (select (refers_to ledger c) db.transactions) b h in
    let (stored, fits) = Memᴰ-select (refers_to ledger c) b db.transactions w.stored in
    (
      stored,
      ground arith,
      All-map _ (λ t. IsOf ledger c t → t.created_at ≤ b.created_at) db.transactions
          (λ t f of. f (ground (arith, of.0, of.1)))
          (All-select (refers_to ledger c) (λ u. u.created_at ≤ b.created_at) db.transactions
            w.newest),
    )

-- A successful payout with two different transaction identifiers, the first of them fresh, debits
-- the account that is payable and credits the payout account, under the second identifier, with
-- one positive amount. Of the ledger's transactions with the claim's reference there is one that
-- none is newer than, and the amount is the sum of its credits on accounts of the subtype
-- EMPLOYEE_PAYABLE. A transaction with the first identifier is inserted too and has no posting.
pub pay-IsPayout :
    (env : Env) (db : Db) (user ledger claim payout first second today now : ℕ) {db' : Db}
    → IsFresh first db.postings
    → second ≢ first
    → pay env db user ledger claim payout first second today now ≡ ok db'
    → IsPayout db db' user ledger claim payout first second today now
pay-IsPayout env db user ledger claim payout first second today now {db'} fresh other h =
    let d = pay_done env db user ledger claim payout first second today now h in
    let n = net_payable db d.booked.id in
    let (positive, posted) =
      insert_two db.trigger_enabled (leg second d.payable.id n) (credit_leg second payout n)
        db.postings d.inserted in
    let (stored, is_of, newest) = latest_txn-IsNewest db ledger d.c.claim d.booked d.is_booked in
    record {
      c = d.c;
      loaded = d.loaded;
      payable = d.payable;
      is_payable = d.is_payable;
      booked = d.booked;
      stored = stored;
      is_of = is_of;
      newest = newest;
      amount = n;
      owed = net_payable-owed_by db d.booked.id;
      positive = positive;
      postings = posted;
      headers = d.headers;
      empty_header =
          ap (select (posting_of first)) posted
          ∙ skipped first second payout d.payable.id n db.postings other fresh;
    }
