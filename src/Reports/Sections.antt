-- ===== src/Reports/Sections.antt =====
-- The totals of the balance sheet as sums over the rows of its query.
use openaccounting.Prelude.{
  String, Bool, List, [], ◌∷◌, not, map, ◌≡◌, refl, arith, str_eq, if◌then◌else◌, Bool-cases, inl,
  inr,
}
use openaccounting.Prelude.Int.{ℤ, pos, ◌+ℤ◌, eqb_ℤ, int_laws, parts}
use openaccounting.Prelude.Tables.{select}
use openaccounting.Prelude.Sums.{sum_ℤ, sum_ℤ_plus, sum_ℤ_zero, sum_ℤ-select}
use openaccounting.Reports.Data.{AccountNet, AccountTotal}
use openaccounting.Reports.BalanceSheet.{
  account_totals, totals_sum, is_sort, Sections, push_section, add_sections, negated, EquityTotals,
  push_equity, add_equity,
}

-- Accounts without a movement are left out of a section and missed by no sum.
pub totals_sum_nonzero {ℓ} :
    {B : Type ℓ} (g : B → AccountTotal) (xs : List B)
    → totals_sum (select (λ (t : AccountTotal). not (eqb_ℤ t.amount (pos 0))) (map g xs))
      ≡ sum_ℤ (λ x. (g x).amount) xs
totals_sum_nonzero g [] = refl
totals_sum_nonzero g (x ∷ xs) = elim (Bool-cases (eqb_ℤ (g x).amount (pos 0))) [
  | inl nothing ↦
      let zero_net : (g x).amount ≡ pos 0 = ground arith in
      rw nothing (omega (int_laws, parts zero_net, parts (totals_sum_nonzero g xs)))
  | inr something ↦ rw something (rw (totals_sum_nonzero g xs) refl)
]

abbrev total_of : (ℤ → ℤ) → AccountNet → AccountTotal
total_of sign n = record {
  account_id = n.account.id;
  account_name = n.account.name;
  account_type = n.account.type_str;
  amount = sign n.net;
}

totals_sum-account_totals :
    (sign : ℤ → ℤ) (ns : List AccountNet)
    → totals_sum (account_totals sign ns) ≡ sum_ℤ (λ (n : AccountNet). sign n.net) ns
totals_sum-account_totals sign ns = totals_sum_nonzero (total_of sign) ns

push_section-total :
    (label : String) (ts : List AccountTotal) (acc : Sections)
    → (push_section label ts acc).total ≡ acc.total +ℤ totals_sum ts
push_section-total label [] acc = omega int_laws
push_section-total label (t ∷ ts) acc = refl

-- What an account adds to the total of a section loop.
abbrev pub section_amount : (ℤ → ℤ) → String → List (String × String) → AccountNet → ℤ
section_amount sign ty [] n = pos 0
section_amount sign ty (s ∷ ss) n =
    (if is_sort ty s.0 n then sign n.net else pos 0) +ℤ section_amount sign ty ss n

pub add_sections-total :
    (sign : ℤ → ℤ) (ty : String) (rows : List AccountNet) (ss : List (String × String))
    (acc : Sections)
    → (add_sections sign ty rows ss acc).total ≡ acc.total +ℤ sum_ℤ (section_amount sign ty ss) rows
unfolding add_sections
add_sections-total sign ty rows [] acc = omega (int_laws, parts (sum_ℤ_zero rows))
add_sections-total sign ty rows ((subtype, label) ∷ rest) acc =
    let ts = account_totals sign (select (is_sort ty subtype) rows) in
    omega (
      int_laws,
      parts (add_sections-total sign ty rows rest (push_section label ts acc)),
      parts (push_section-total label ts acc),
      parts (totals_sum-account_totals sign (select (is_sort ty subtype) rows)),
      parts (sum_ℤ-select (λ (n : AccountNet). sign n.net) (is_sort ty subtype) rows),
      parts (
          sum_ℤ_plus (λ n. if is_sort ty subtype n then sign n.net else pos 0)
            (section_amount sign ty rest) rows),
    )

abbrev pub is_equity : AccountNet → Bool
is_equity n = str_eq n.account.type_str "EQUITY"

push_equity-total_eq :
    (n : AccountNet) (acc : EquityTotals)
    → (push_equity n acc).total_eq ≡ acc.total_eq +ℤ (if is_equity n then negated n.net else pos 0)
unfolding push_equity
push_equity-total_eq n acc = elim (Bool-cases (is_equity n)) [
  | inr other ↦ rw other (omega int_laws)
  | inl here ↦ elim (Bool-cases (eqb_ℤ (negated n.net) (pos 0))) [
    | inl nothing ↦
        let zero_net : negated n.net ≡ pos 0 = ground arith in
        rw (here, nothing) (omega (int_laws, parts zero_net))
    | inr something ↦ rw (here, something) refl
  ]
]

pub add_equity-total_eq :
    (rows : List AccountNet) (acc : EquityTotals)
    → (add_equity rows acc).total_eq
      ≡ acc.total_eq
        +ℤ sum_ℤ (λ (n : AccountNet). if is_equity n then negated n.net else pos 0) rows
unfolding add_equity
add_equity-total_eq [] acc = omega int_laws
add_equity-total_eq (n ∷ ns) acc = omega (
  int_laws,
  parts (push_equity-total_eq n acc),
  parts (add_equity-total_eq ns (push_equity n acc)),
)
