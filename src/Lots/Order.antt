-- ===== src/Lots/Order.antt =====
-- A sale takes from the oldest lots first.
use openaccounting.Prelude.{
  ℕ, zero, suc, ◌-◌, ◌≤◌, true, false, none, some, List, [], ◌∷◌, ◌++◌, ◌≡◌, ap, sym, subst, ◌∙◌,
  arith, ◌==◌, if◌then◌else◌, Bool-cases, Option-cases, inl, inr, length, All,
}
use openaccounting.Prelude.Tables.{exists}
use openaccounting.Prelude.Sums.{sum-append}
use openaccounting.Lots.Fifo.{
  InvestmentLot, InvestmentDisposal, Sale, sold, is_open, precedes, candidate, take_of, disposal,
  next_lot, fifo_loop, fifo_match,
}
use openaccounting.Lots.Open.{IsKeyed, IsIn, candidate-IsIn, IsIn-exists}
use openaccounting.Lots.Sold.{append_one}

precedes_trans :
    (a b c : InvestmentLot) → precedes a b ≡ true → precedes b c ≡ true → precedes a c ≡ true
precedes_trans a b c h k = ground (arith, h, k)

precedes_total : (a b : InvestmentLot) → precedes a b ≡ false → precedes b a ≡ true
precedes_total a b h = ground (arith, h)

precedes_self : (a : InvestmentLot) → precedes a a ≡ true
precedes_self a = ground arith

no_candidate :
    (account : ℕ) (ds : List InvestmentDisposal) (lots : List InvestmentLot) (x : InvestmentLot)
    → candidate account ds lots ≡ none
    → IsIn x lots
    → is_open account ds x ≡ false
unfolding candidate
no_candidate account ds [] x h i = elim i [ ]
no_candidate account ds (y ∷ ys) x h (inl e) = rw e (ground (arith, h))
no_candidate account ds (y ∷ ys) x h (inr i) = no_candidate account ds ys x (ground (arith, h)) i

-- The candidate stands before every other open lot.
candidate-precedes :
    (account : ℕ) (ds : List InvestmentDisposal) (lots : List InvestmentLot) (l x : InvestmentLot)
    → candidate account ds lots ≡ some l
    → IsIn x lots
    → is_open account ds x ≡ true
    → precedes l x ≡ true
unfolding candidate
candidate-precedes account ds [] l x h i o = elim i [ ]
candidate-precedes account ds (y ∷ ys) l x h i o = elim (Bool-cases (is_open account ds y)) [
  | inr shut ↦ elim i [
    | inl e ↦
        let closed : is_open account ds x ≡ false = rw e shut in absurd (ground (arith, o, closed))
    | inr j ↦ candidate-precedes account ds ys l x (ground (arith, h, shut)) j o
  ]
  | inl here ↦ elim (Option-cases (candidate account ds ys)) [
    | inl last ↦
        let e' : l ≡ y = ground (arith, h, here, last) in
        elim i [
          | inl e ↦ rw (e', e) (precedes_self y)
          | inr j ↦ absurd (ground (arith, o, no_candidate account ds ys x last j))
        ]
    | inr (b, found) ↦
        let rest = λ (j : IsIn x ys). candidate-precedes account ds ys b x found j o in
        elim (Bool-cases (precedes y b)) [
          | inl first ↦
              let e' : l ≡ y = ground (arith, h, here, found, first) in
              elim i [
                | inl e ↦ rw (e', e) (precedes_self y)
                | inr j ↦ rw e' (precedes_trans y b x first (rest j))
              ]
          | inr later ↦
              let e' : l ≡ b = ground (arith, h, here, found, later) in
              elim i [ inl e ↦ rw (e', e) (precedes_total y b later) | inr j ↦ rw e' (rest j) ]
        ]
  ]
]

keyed_once :
    (a b : InvestmentLot) (lots : List InvestmentLot)
    → IsKeyed lots
    → IsIn a lots
    → IsIn b lots
    → a.id ≡ b.id
    → a ≡ b
keyed_once a b [] k i j e = elim i [ ]
keyed_once a b (x ∷ xs) k (inl p) (inl q) e = p ∙ sym q
keyed_once a b (x ∷ xs) k (inl p) (inr j) e =
    let same : b.id ≡ x.id = sym e ∙ ap (λ (z : InvestmentLot). z.id) p in
    let near = IsIn-exists b xs j in
    let gone = subst (λ z. exists (λ (c : InvestmentLot). c.id == z) xs ≡ false) (sym same) k.0 in
    absurd (ground (arith, near, gone))
keyed_once a b (x ∷ xs) k (inr i) (inl q) e =
    let same : a.id ≡ x.id = e ∙ ap (λ (z : InvestmentLot). z.id) q in
    let near = IsIn-exists a xs i in
    let gone = subst (λ z. exists (λ (c : InvestmentLot). c.id == z) xs ≡ false) (sym same) k.0 in
    absurd (ground (arith, near, gone))
keyed_once a b (x ∷ xs) k (inr i) (inr j) e = keyed_once a b xs k.1 i j e

sold_grows : (lot : ℕ) (ds more : List InvestmentDisposal) → sold lot ds ≤ sold lot (ds ++ more)
unfolding sold
sold_grows lot ds more =
    omega
      (arith, sum-append (λ (x : InvestmentDisposal). if x.lot_id == lot then x.qty else 0) ds more)

-- In a table of disposals, all lots of the account that stand before the lot of `d` are sold out.
abbrev pub IsOldest : ℕ → List InvestmentLot → List InvestmentDisposal → InvestmentDisposal → Type 0
IsOldest account lots ds d =
    (l x : InvestmentLot)
    → IsIn l lots
    → IsIn x lots
    → d.lot_id ≡ l.id
    → x.account_id ≡ account
    → precedes l x ≡ false
    → x.qty ≤ sold x.id ds

round-IsOldest :
    (s : Sale) (id take : ℕ) (lots : List InvestmentLot) (ds more : List InvestmentDisposal)
    (picked : InvestmentLot)
    → IsKeyed lots
    → candidate s.account_id ds lots ≡ some picked
    → IsOldest s.account_id lots (ds ++ more) (disposal s id picked take)
round-IsOldest s id take lots ds more picked k c l x i j e mine before =
    let at = (candidate-IsIn s.account_id ds lots picked c).0 in
    let same : picked ≡ l = keyed_once picked l lots k at i e in
    let before' : precedes picked x ≡ false = rw same before in
    elim (Bool-cases (is_open s.account_id ds x)) [
      | inl still ↦
          absurd
            (ground (arith, before', candidate-precedes s.account_id ds lots picked x c j still))
      | inr shut ↦ ground (arith, mine, shut, sold_grows x.id ds more)
    ]

fifo_loop-IsOldest :
    (k : ℕ) (ids : ℕ → ℕ) (s : Sale) (lots : List InvestmentLot) (remaining : ℕ)
    (ds new : List InvestmentDisposal)
    → IsKeyed lots
    → fifo_loop k ids s lots remaining ds ≡ some new
    → All (IsOldest s.account_id lots (ds ++ new)) new
unfolding fifo_loop
fifo_loop-IsOldest zero ids s lots remaining ds new key h = absurd (ground (arith, h))
fifo_loop-IsOldest (suc k) ids s lots remaining ds new key h =
    elim (Option-cases (next_lot s remaining ds lots)) [
      | inl ended ↦ let e : new ≡ [] = ground (arith, h, ended) in rw e tt
      | inr (l, found) ↦
          let picked : candidate s.account_id ds lots ≡ some l =
            next_candidate s remaining ds lots l found in
          let take = take_of ds l remaining in
          let d = disposal s (ids k) l take in
          let after = fifo_loop k ids s lots (remaining - take) (ds ++ d ∷ []) in
          elim (Option-cases after) [
            | inl failed ↦ absurd (ground (arith, h, found, failed))
            | inr (rest, e) ↦
                let cons : new ≡ d ∷ rest = ground (arith, h, found, e) in
                let tail =
                  fifo_loop-IsOldest k ids s lots (remaining - take) (ds ++ d ∷ []) rest key e in
                rw cons (
                  round-IsOldest s (ids k) take lots ds (d ∷ rest) l key picked,
                  subst (λ z. All (IsOldest s.account_id lots z) rest) (append_one ds rest d) tail,
                )
          ]
    ]
  where
    next_candidate :
        (s : Sale) (remaining : ℕ) (ds : List InvestmentDisposal) (lots : List InvestmentLot)
        (l : InvestmentLot)
        → next_lot s remaining ds lots ≡ some l
        → candidate s.account_id ds lots ≡ some l
    next_candidate s remaining ds lots l h = elim (Bool-cases (remaining == 0)) [
      | inl done ↦ absurd (ground (arith, h, done))
      | inr more ↦ ground (arith, h, more)
    ]

-- If the identifiers of the lots are unique, then for each disposal that a sale inserts, all lots
-- of the account that stand before its lot, in the order of acquisition and then of identifiers,
-- are sold out after the sale.
pub fifo_match-IsOldest :
    (ids : ℕ → ℕ) (s : Sale) (sell_qty : ℕ) (lots : List InvestmentLot)
    (ds new : List InvestmentDisposal)
    → IsKeyed lots
    → fifo_match ids s sell_qty lots ds ≡ some new
    → All (IsOldest s.account_id lots (ds ++ new)) new
unfolding fifo_match
fifo_match-IsOldest ids s sell_qty lots ds new key h =
    fifo_loop-IsOldest (suc (length lots)) ids s lots sell_qty ds new key h
