-- ===== src/Claims/LegTotals.antt =====
-- What the legs of a claim debit and credit in all (`approve`).
use openaccounting.Prelude.{
  ℕ, false, ◌≡◌, refl, sym, ap, ◌∙◌, Option, none, some, List, [], ◌∷◌, ◌++◌, map, ltb, arith, inl,
  inr, Bool-cases, if◌then◌else◌, ==_refl,
}
use openaccounting.Prelude.Int.{ℤ, pos, sub_ℕ, ◌+ℤ◌, ◌-ℤ◌, int_laws, parts}
use openaccounting.Prelude.Tables.{select}
use openaccounting.Prelude.Sums.{sum, sum_ℤ, sum_ℤ_same, sum_ℤ-map, sum_ℤ-sub_ℕ}
use openaccounting.Prelude.Results.{ok, bind_ok, ok_inj}
use openaccounting.Claims.Data.{Account, Line, Posting}
use openaccounting.Claims.Routing.{dedup, sort_unstable}
use openaccounting.Claims.Trigger.{
  posting_of, debit_amount, credit_amount, insert_posting, insert_postings,
}
use openaccounting.Claims.Totals.{sum_ℤ-distinct}
use openaccounting.Claims.Approve.{
  Group, credit_leg, booked_on, advance_total, grouped, group_of, group_legs, advance_legs,
  net_expense,
}

-- Without the trigger the legs are added as they are.
pub sum_ℤ-insert_postings :
    (f : Posting → ℤ) (legs ps : List Posting) {qs : List Posting}
    → insert_postings false legs ps ≡ ok qs
    → sum_ℤ f qs ≡ sum_ℤ f legs +ℤ sum_ℤ f ps
unfolding insert_postings insert_posting
sum_ℤ-insert_postings f [] ps h = let e = ap (sum_ℤ f) (ok_inj h) in omega (int_laws, parts e)
sum_ℤ-insert_postings f (p ∷ legs) ps h =
    let (qs, first, rest) = bind_ok (insert_posting false p ps) _ h in
    let added : qs ≡ p ∷ ps = ground arith in
    let e = sum_ℤ-insert_postings f legs qs rest in
    let here = ap (sum_ℤ f) added in omega (int_laws, parts e, parts here)

module _ (txn : ℕ) where
  abbrev pub debited : Posting → ℤ
  debited p = if posting_of txn p then debit_amount p else pos 0

  abbrev pub credited : Posting → ℤ
  credited p = if posting_of txn p then credit_amount p else pos 0

  pub group_debits :
      (gs : List Group) (rest : List Posting)
      → sum_ℤ debited (group_legs txn gs ++ rest)
        ≡ sum_ℤ (λ (g : Group). g.net +ℤ pos g.tax) gs +ℤ sum_ℤ debited rest
  unfolding group_legs
  group_debits [] rest = omega int_laws
  group_debits (g ∷ gs) rest = elim (Bool-cases (ltb 0 g.tax)) [
    | inl taxed ↦ rw (taxed, ==_refl txn) (omega (int_laws, parts (group_debits gs rest)))
    | inr untaxed ↦
        let zero_tax : g.tax ≡ 0 = ground arith in
        rw (untaxed, ==_refl txn, zero_tax) (omega (int_laws, parts (group_debits gs rest)))
  ]

  pub group_credits :
      (gs : List Group) (rest : List Posting)
      → sum_ℤ credited (group_legs txn gs ++ rest) ≡ sum_ℤ credited rest
  unfolding group_legs
  group_credits [] rest = refl
  group_credits (g ∷ gs) rest = elim (Bool-cases (ltb 0 g.tax)) [
    | inl taxed ↦ rw (taxed, ==_refl txn) (omega (int_laws, parts (group_credits gs rest)))
    | inr untaxed ↦ rw (untaxed, ==_refl txn) (omega (int_laws, parts (group_credits gs rest)))
  ]

-- The advance that is credited: all of it, if there is an account for it.
abbrev pub advance_credited : Option Account → ℕ → ℕ
advance_credited none advance = 0
advance_credited (some _) advance = advance

module _ (txn payable : ℕ) (net : ℤ) where
  abbrev pub last_legs : ℕ → Option Account → List Posting
  last_legs advance a = advance_legs txn advance a ++ (credit_leg txn payable net ∷ [])

  pub last_debits :
      (advance : ℕ) (a : Option Account) → sum_ℤ (debited txn) (last_legs advance a) ≡ pos 0
  unfolding advance_legs
  last_debits advance none = rw (==_refl txn) (omega int_laws)
  last_debits advance (some a) = elim (Bool-cases (ltb 0 advance)) [
    | inl paid ↦ rw (paid, ==_refl txn) (omega int_laws)
    | inr unpaid ↦ rw (unpaid, ==_refl txn) (omega int_laws)
  ]

  pub last_credits :
      (advance : ℕ) (a : Option Account)
      → sum_ℤ (credited txn) (last_legs advance a) ≡ pos (advance_credited a advance) +ℤ net
  unfolding advance_legs
  last_credits advance none = rw (==_refl txn) (omega int_laws)
  last_credits advance (some a) = elim (Bool-cases (ltb 0 advance)) [
    | inl paid ↦ rw (paid, ==_refl txn) (omega int_laws)
    | inr unpaid ↦
        let zero_advance : advance ≡ 0 = ground arith in
        rw (unpaid, ==_refl txn, zero_advance) (omega int_laws)
  ]

pos-sum : (f : Line → ℕ) (lines : List Line) → pos (sum f lines) ≡ sum_ℤ (λ l. pos (f l)) lines
pos-sum f [] = refl
pos-sum f (l ∷ lines) = omega (int_laws, parts (pos-sum f lines))

-- The groups add up to the lines.
pub net_expense-grouped :
    (lines : List Line)
    → net_expense (grouped lines) ≡ sub_ℕ (sum (λ (l : Line). l.amount) lines) (advance_total lines)
unfolding grouped group_of advance_total
net_expense-grouped lines =
    sum_ℤ-map (λ (g : Group). g.net) (group_of lines) _
    ∙ (sum_ℤ-distinct (λ l. sub_ℕ l.amount l.advance_amount) lines
        ∙ sum_ℤ-sub_ℕ (λ l. l.amount) (λ l. l.advance_amount) lines)

pub tax-grouped :
    (lines : List Line)
    → sum_ℤ (λ (g : Group). pos g.tax) (grouped lines)
      ≡ pos (sum (λ (l : Line). l.tax_amount) lines)
unfolding grouped group_of
tax-grouped lines =
    sum_ℤ-map (λ (g : Group). pos g.tax) (group_of lines) _
    ∙ (sum_ℤ_same _ _ (dedup (sort_unstable (map (λ (l : Line). l.gl_account_id) lines)))
          (λ k. pos-sum (λ (l : Line). l.tax_amount) (select (booked_on k) lines))
        ∙ (sum_ℤ-distinct (λ l. pos l.tax_amount) lines
            ∙ sym (pos-sum (λ (l : Line). l.tax_amount) lines)))

pub sub_ℕ_difference : (a b : ℕ) → sub_ℕ a b ≡ pos a -ℤ pos b
unfolding ◌-ℤ◌ ◌+ℤ◌
sub_ℕ_difference a b = ground arith
