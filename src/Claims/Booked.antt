-- ===== src/Claims/Booked.antt =====
-- The posting of a claim of which the last level is approved (`post_claim`), while the trigger on
-- `postings` is enabled.
use openaccounting.Prelude.{
  ℕ, ◌≤◌, true, false, ◌≡◌, ◌≢◌, refl, ap, sym, ◌∙◌, Option, none, some, List, [], ◌∷◌, ◌++◌, ltb,
  length, arith, Bool-cases, inl, inr,
}
use openaccounting.Prelude.Int.{ℤ, pos, ◌-ℤ◌, leb_ℤ, int_laws, parts, +ℤ_parts}
use openaccounting.Prelude.Results.{ok}
use openaccounting.Claims.Data.{Account, Posting}
use openaccounting.Claims.Trigger.{insert_postings}
use openaccounting.Claims.Pairs.{IsFresh, insert_postings-Pair, insert_postings_third}
use openaccounting.Claims.Approve.{Group, leg, credit_leg, group_legs, advance_legs, net_expense}

pub none_left :
    {qs : List Posting} (ps : List Posting) → insert_postings true [] ps ≡ ok qs → qs ≡ ps
unfolding insert_postings
none_left ps h = cc

-- Two debits do not balance.
two_debits :
    (txn a b : ℕ) (u v : ℤ) (rest ps : List Posting) {qs : List Posting}
    → IsFresh txn ps
    → insert_postings true (leg txn a u ∷ leg txn b v ∷ rest) ps ≢ ok qs
two_debits txn a b u v rest ps fresh h =
    let pair = insert_postings-Pair txn (leg txn a u) (leg txn b v) rest ps fresh refl refl h in
    ground (
      arith,
      pair.first_positive,
      pair.second_positive,
      parts pair.balanced,
      +ℤ_parts v u,
      +ℤ_parts (pos 0) (pos 0),
    )

-- A claim is booked: all its lines are on one account, without tax and without an advance, and the
-- postings of its transaction are one debit of that account and the credit of the same amount to
-- the account that is payable.
pub record IsBooked (txn payable : ℕ) (groups : List Group) (advance : ℕ) (ps qs : List Posting)
    : Type 0 where
  pub group : Group
  pub single : groups ≡ group ∷ []
  pub untaxed : group.tax ≡ 0
  pub no_advance : advance ≡ 0
  pub positive : leb_ℤ group.net (pos 0) ≡ false
  pub posted : qs ≡ credit_leg txn payable group.net ∷ leg txn group.gl_account_id group.net ∷ ps

module _ (txn payable : ℕ) (ps : List Posting) (fresh : IsFresh txn ps) where
  abbrev all_legs : List Group → ℕ → Option Account → List Posting
  all_legs gs advance a =
      group_legs txn gs
      ++ (advance_legs txn advance a
          ++ (credit_leg txn payable (net_expense gs -ℤ pos advance) ∷ []))

  single_IsBooked :
      (g : Group) (advance : ℕ) {qs : List Posting}
      → g.tax ≡ 0
      → insert_postings true
          (leg txn g.gl_account_id g.net
            ∷ credit_leg txn payable (net_expense (g ∷ []) -ℤ pos advance)
            ∷ [])
          ps
        ≡ ok qs
      → IsBooked txn payable (g ∷ []) advance ps qs
  unfolding insert_postings
  single_IsBooked g advance untaxed h =
      let net = net_expense (g ∷ []) -ℤ pos advance in
      let pair =
        insert_postings-Pair txn (leg txn g.gl_account_id g.net) (credit_leg txn payable net) [] ps
          fresh refl refl h in
      let same : g.net ≡ net = omega (int_laws, parts pair.balanced) in
      record {
        group = g;
        single = refl;
        untaxed = untaxed;
        no_advance = omega (int_laws, parts same);
        positive = pair.first_positive;
        posted =
            none_left _ pair.remaining
            ∙ ap (λ v. credit_leg txn payable v ∷ leg txn g.gl_account_id g.net ∷ ps) (sym same);
      }

  untaxed-IsBooked :
      (g : Group) (gs : List Group) (advance : ℕ) (a : Option Account) {qs : List Posting}
      → g.tax ≡ 0
      → insert_postings true
          (leg txn g.gl_account_id g.net
            ∷ (group_legs txn gs
                ++ (advance_legs txn advance a
                    ++ (credit_leg txn payable (net_expense (g ∷ gs) -ℤ pos advance) ∷ []))))
          ps
        ≡ ok qs
      → IsBooked txn payable (g ∷ gs) advance ps qs
  unfolding group_legs advance_legs
  untaxed-IsBooked g (k ∷ gs) advance a untaxed h = absurd (two_debits txn _ _ _ _ _ ps fresh h)
  untaxed-IsBooked g [] advance none untaxed h = single_IsBooked g advance untaxed h
  untaxed-IsBooked g [] advance (some a) untaxed h = elim (Bool-cases (ltb 0 advance)) [
    | inl paid ↦ absurd (insert_postings_third txn _ _ _ _ ps fresh refl refl refl (rw paid at h))
    | inr unpaid ↦ single_IsBooked g advance untaxed (rw unpaid at h)
  ]

  pub legs-IsBooked :
      (gs : List Group) (advance : ℕ) (a : Option Account) {qs : List Posting}
      → 1 ≤ length gs
      → insert_postings true (all_legs gs advance a) ps ≡ ok qs
      → IsBooked txn payable gs advance ps qs
  unfolding group_legs
  legs-IsBooked [] advance a one h = absurd (omega arith)
  legs-IsBooked (g ∷ gs) advance a one h = elim (Bool-cases (ltb 0 g.tax)) [
    | inl taxed ↦ absurd (two_debits txn _ _ _ _ _ ps fresh (rw taxed at h))
    | inr untaxed ↦ untaxed-IsBooked g gs advance a (ground arith) (rw untaxed at h)
  ]
