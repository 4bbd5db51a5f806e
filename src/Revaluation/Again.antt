-- ===== src/Revaluation/Again.antt =====
-- A revaluation changes no balance that a later one reads.
use openaccounting.Prelude.{
  ℕ, suc, String, false, ◌&&◌, ◌||◌, Option, none, some, List, [], ◌∷◌, ◌++◌, ◌≡◌, refl, ap, ◌∙◌,
  arith, ◌==◌, str_eq, All, Bool-cases, Option-cases, inl, inr,
}
use openaccounting.Prelude.Int.{ℤ, pos, ltb_ℤ, eqb_ℤ}
use openaccounting.Prelude.Tables.{find, select, exists}
use openaccounting.Prelude.Results.{Result, ok, err, Result-cases}
use openaccounting.Prelude.Foreign.{Env}
use openaccounting.Fx.{FxError, lookup}
use openaccounting.Posting.Data.{
  Ledger, TxnLineInput, NewTransaction, CreatedTransaction, Posting, Db,
}
use openaccounting.Posting.Checks.{ledger_by}
use openaccounting.Posting.Write.{posting_row, posting_rows}
use openaccounting.Posting.Create.{Ids, create, apply}
use openaccounting.Posting.Planned.{plan-Planned}
use openaccounting.Posting.Balance.{IsBalanced}
use openaccounting.Posting.History.{create_with_kind-plan, create_with_kind-IsBalanced}
use openaccounting.Reports.LedgerBalance.{select-append}
use openaccounting.Revaluation.Run.{
  FxAccount, Books, Request, Candidate, RevaluationPosted, is_foreign, is_monetary, candidate_rows,
  candidates_in, candidates, ensure_one, ensure_fx_accounts, request_of, Step, is_done, difference,
  recorded, post_difference, with_difference, with_ledger, revalue_one, Outcome, add_posted,
  and_then, revalue_all, pending, begin, run_revaluation,
}

-- The postings of lines without a foreign leg have no foreign amount.
posting_rows_domestic :
    (ids : ℕ → ℕ) (i txn account : ℕ) (ls : List TxnLineInput) (as' : List ℤ) (rows : List Posting)
    → All (λ (l : TxnLineInput). l.foreign ≡ none) ls
    → posting_rows ids i txn ls as' ≡ ok rows
    → select (is_foreign account) rows ≡ []
unfolding posting_rows posting_row
posting_rows_domestic ids i txn account [] as' rows n h =
    let e : rows ≡ [] = ground (arith, h) in rw e refl
posting_rows_domestic ids i txn account (l ∷ ls) [] rows n h =
    let e : rows ≡ [] = ground (arith, h) in rw e refl
posting_rows_domestic ids i txn account (l ∷ ls) (a ∷ as') rows n h =
    elim (Result-cases (posting_rows ids (suc i) txn ls as')) [
      | inr (_, failed) ↦ absurd (ground (arith, h, failed))
      | inl (rest, found) ↦
          let e : rows ≡ posting_row (ids i) txn l a ∷ rest = ground (arith, h, found) in
          let own : l.foreign ≡ none = n.0 in
          rw (e, own)
            (ground
              (arith, own, posting_rows_domestic ids (suc i) txn account ls as' rest n.1 found))
    ]

-- What a later revaluation reads is the same in both states.
abbrev IsSame : Books → Books → Type 0
IsSame b b' =
    (b'.db.ledgers ≡ b.db.ledgers)
    × ((account : ℕ)
        → select (is_foreign account) b'.db.postings ≡ select (is_foreign account) b.db.postings)
    × ((ledger : ℕ) (base : String) (ps : List Posting)
        → candidate_rows ledger base ps b'.accounts ≡ candidate_rows ledger base ps b.accounts)
    × (IsBalanced b.db.postings → IsBalanced b'.db.postings)

IsSame-refl : (b : Books) → IsSame b b
IsSame-refl b = (refl, λ a. refl, λ l base ps. refl, λ h. h)

IsSame-trans : (b c d : Books) → IsSame b c → IsSame c d → IsSame b d
IsSame-trans b c d (l, p, a, k) (l', p', a', k') =
    (l' ∙ l, λ x. p' x ∙ p x, λ x y z. a' x y z ∙ a x y z, λ h. k' (k h))

candidate_rows-append :
    (ledger : ℕ) (base : String) (ps : List Posting) (as' : List FxAccount) (a : FxAccount)
    → (str_eq a.type_str "ASSET" || str_eq a.type_str "LIABILITY") ≡ false
    → candidate_rows ledger base ps (as' ++ a ∷ []) ≡ candidate_rows ledger base ps as'
unfolding candidate_rows
candidate_rows-append ledger base ps [] a h =
    let e : is_monetary ledger base a ≡ false = ground (arith, h) in rw e refl
candidate_rows-append ledger base ps (x ∷ xs) a h =
    rw (candidate_rows-append ledger base ps xs a h) refl

ensure_one-IsSame :
    (id ledger : ℕ) (name ty base : String) (b : Books)
    → (str_eq ty "ASSET" || str_eq ty "LIABILITY") ≡ false
    → IsSame b (ensure_one id ledger name ty base b).1
unfolding ensure_one
ensure_one-IsSame id ledger name ty base b h =
    elim (Option-cases
      (find (λ (a : FxAccount). a.ledger_id == ledger && str_eq a.name name) b.accounts)) [
        | inr (a, found) ↦ rw (ensure_one, found) (IsSame-refl b)
        | inl missing ↦
            rw (ensure_one, missing)
              (refl, λ a. refl, λ l x ps. candidate_rows-append l x ps b.accounts _ h, λ k. k)
      ]

create-IsSame :
    (env : Env) (ids : Ids) (new : NewTransaction) (b : Books) (c : CreatedTransaction) (db : Db)
    → All (λ (l : TxnLineInput). l.foreign ≡ none) new.lines
    → create env ids new b.db ≡ ok (c, db)
    → IsSame b (record b { db = db })
unfolding create apply
create-IsSame env ids new b c db n h =
    let (p, planned, same, _) = create_with_kind-plan env ids new false b.db c db h in
    let w = plan-Planned env ids new false b.db p planned in
    (
      ground (arith, same),
      λ account.
          let e : db.postings ≡ b.db.postings ++ p.postings = ground (arith, same) in
          ap (select (is_foreign account)) e
          ∙ select-append (is_foreign account) b.db.postings p.postings
          ∙ rw
              (posting_rows_domestic ids.posting 0 ids.txn account new.lines w.amounts p.postings n
                w.legs)
              (append_none (select (is_foreign account) b.db.postings)),
      λ l base ps. refl,
      create_with_kind-IsBalanced env ids new false b.db c db h,
    )
  where
    append_none : (xs : List Posting) → xs ++ [] ≡ xs
    append_none [] = refl
    append_none (x ∷ xs) = ap (λ z. x ∷ z) (append_none xs)

request_of-domestic :
    (r : Request) (c : Candidate) (pair : ℕ × ℕ) (diff : ℤ)
    → All (λ (l : TxnLineInput). l.foreign ≡ none) (request_of r c pair diff).lines
request_of-domestic r c pair diff = elim (Bool-cases (ltb_ℤ (pos 0) diff)) [
  | inl gain ↦ rw gain (refl, (refl, tt))
  | inr loss ↦ rw loss (refl, (refl, tt))
]

recorded-IsSame :
    (r : Request) (c : Candidate) (diff : ℤ) (made : CreatedTransaction) (b b' : Books)
    → IsSame b b'
    → IsSame b (recorded r c diff made b').1
recorded-IsSame r c diff made b b' h =
    elim (Bool-cases (exists (is_done r.ledger_id c.account_id r.period_month) b'.revaluations)) [
      | inl twice ↦ rw twice h
      | inr once ↦ rw once h
    ]

post_difference-IsSame :
    (env : Env) (r : Request) (i : ℕ) (c : Candidate) (base : String) (diff : ℤ) (b : Books)
    → IsSame b (post_difference env r i c base diff b).1
unfolding ensure_fx_accounts
post_difference-IsSame env r i c base diff b =
    let first = ensure_one (r.gain_id i) r.ledger_id "FX Unrealized Gain/Loss" "INCOME" base b in
    let second = ensure_one (r.loss_id i) r.ledger_id "FX Unrealized Loss" "EXPENSE" base first.1 in
    let b2 = second.1 in
    let ensured =
      IsSame-trans b first.1 b2 (ensure_one-IsSame _ _ _ "INCOME" base b refl)
        (ensure_one-IsSame _ _ _ "EXPENSE" base first.1 refl) in
    let new = request_of r c (first.0, second.0) diff in
    elim (Result-cases (create env (r.ids i) new b2.db)) [
      | inr (e, failed) ↦ rw failed ensured
      | inl ((made, db), created) ↦ rw created (
          recorded-IsSame r c diff made b (record b2 { db = db })
            (IsSame-trans b b2 (record b2 { db = db }) ensured
              (create-IsSame env (r.ids i) new b2 made db
                (request_of-domestic r c (first.0, second.0) diff) created)))
    ]

with_difference-IsSame :
    (env : Env) (r : Request) (i : ℕ) (c : Candidate) (base : String) (b : Books)
    (d : Result FxError ℤ)
    → IsSame b (with_difference env r i c base b d).1
with_difference-IsSame env r i c base b (err e) = IsSame-refl b
with_difference-IsSame env r i c base b (ok diff) = elim (Bool-cases (eqb_ℤ diff (pos 0))) [
  | inl nothing ↦ rw nothing (IsSame-refl b)
  | inr something ↦ rw something (post_difference-IsSame env r i c base diff b)
]

with_ledger-IsSame :
    (env : Env) (r : Request) (i : ℕ) (c : Candidate) (b : Books) (o : Option Ledger)
    → IsSame b (with_ledger env r i c b o).1
with_ledger-IsSame env r i c b none = IsSame-refl b
with_ledger-IsSame env r i c b (some l) =
    with_difference-IsSame env r i c l.base_currency b
      (difference env c (lookup env b.db.fx_rates b.db.fx_rates c.currency l.base_currency r.date))

add_posted-state : (o : Option RevaluationPosted) (x : Outcome) → (add_posted o x).1 ≡ x.1
add_posted-state none (r, b) = refl
add_posted-state (some p) (ok ps, b) = refl
add_posted-state (some p) (err e, b) = refl

and_then-IsSame :
    (b : Books) (s : Step) (rest : Books → Outcome)
    → IsSame b s.1
    → ((b' : Books) → IsSame b' (rest b').1)
    → IsSame b (and_then s rest).1
and_then-IsSame b (err e, b') rest h k = h
and_then-IsSame b (ok o, b') rest h k =
    rw (add_posted-state o (rest b')) (IsSame-trans b b' (rest b').1 h (k b'))

revalue_all-IsSame :
    (env : Env) (r : Request) (i : ℕ) (cs : List Candidate) (b : Books)
    → IsSame b (revalue_all env r i cs b).1
unfolding revalue_all revalue_one
revalue_all-IsSame env r i [] b = IsSame-refl b
revalue_all-IsSame env r i (c ∷ cs) b =
    and_then-IsSame b (revalue_one env r i c b) (λ b'. revalue_all env r (suc i) cs b')
      (with_ledger-IsSame env r i c b (ledger_by r.ledger_id b.db))
      (λ b'. revalue_all-IsSame env r (suc i) cs b')

begin-IsSame :
    (env : Env) (r : Request) (b : Books) (cs : List Candidate) → IsSame b (begin env r b cs).1
begin-IsSame env r b [] = IsSame-refl b
begin-IsSame env r b (c ∷ cs) = revalue_all-IsSame env r 0 (c ∷ cs) b

same_rows :
    (ledger : ℕ) (base : String) (ps qs : List Posting) (as' : List FxAccount)
    → ((account : ℕ) → select (is_foreign account) qs ≡ select (is_foreign account) ps)
    → candidate_rows ledger base qs as' ≡ candidate_rows ledger base ps as'
unfolding candidate_rows
same_rows ledger base ps qs [] h = refl
same_rows ledger base ps qs (a ∷ as') h = rw (h a.id, same_rows ledger base ps qs as' h) refl

-- A revaluation, whether it succeeds or fails, leaves the accounts that are to be revalued as they
-- were, each with the same foreign balance and the same book value.
pub run_revaluation-candidates :
    (env : Env) (r : Request) (b : Books) (ledger : ℕ)
    → candidates ledger (run_revaluation env r b).1 ≡ candidates ledger b
unfolding run_revaluation candidates ledger_by
run_revaluation-candidates env r b ledger =
    let after = (begin env r b (pending r b)).1 in
    let (ledgers, postings, accounts, _) = begin-IsSame env r b (pending r b) in
    ap (λ ls. candidates_in (find (λ (l : Ledger). l.id == ledger) ls) ledger after) ledgers
    ∙ rows_of (ledger_by ledger b.db) after postings accounts
  where
    rows_of :
        (o : Option Ledger) (after : Books)
        → ((account : ℕ)
            → select (is_foreign account) after.db.postings
              ≡ select (is_foreign account) b.db.postings)
        → ((l : ℕ) (base : String) (ps : List Posting)
            → candidate_rows l base ps after.accounts ≡ candidate_rows l base ps b.accounts)
        → candidates_in o ledger after ≡ candidates_in o ledger b
    rows_of none after p a = refl
    rows_of (some l) after p a =
        same_rows ledger l.base_currency b.db.postings after.db.postings after.accounts p
        ∙ a ledger l.base_currency b.db.postings

-- If the stored postings balance under every transaction identifier, they do so after a
-- revaluation, whether it succeeds or fails on the way.
pub run_revaluation-IsBalanced :
    (env : Env) (r : Request) (b : Books)
    → IsBalanced b.db.postings
    → IsBalanced (run_revaluation env r b).1.db.postings
unfolding run_revaluation
run_revaluation-IsBalanced env r b h = (begin-IsSame env r b (pending r b)).3 h
