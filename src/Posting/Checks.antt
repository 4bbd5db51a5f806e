-- ===== src/Posting/Checks.antt =====
-- What `create_with_kind` tests before it writes: the effective amounts, their balance, the
-- close watermark, the accounts and dimensions, the number, and the maker-checker gate.
use openaccounting.Prelude.{
  ℕ, ◌+◌, String, Bool, true, false, not, ◌&&◌, ◌||◌, Option, none, some, List, [], ◌∷◌, ◌++◌, leb,
  ◌==◌, str_eq, if◌then◌else◌, max,
}
use openaccounting.Prelude.Int.{ℤ, pos, abs, leb_ℤ}
use openaccounting.Prelude.Tables.{find, exists, count}
use openaccounting.Prelude.Results.{Result, ok, err, ◌>>=◌, ◌>>◌, fail_if, ok_or}
use openaccounting.Prelude.Texts.{Text, text_eq, trim, show, show_padded}
use openaccounting.Prelude.Foreign.{Env}
use openaccounting.Fx
use openaccounting.Fx.{FxError, derive_base_amount}
use openaccounting.Posting.Data.{
  Ledger, Scoped, ClosedPeriod, TxnLineInput, NewTransaction, Error, unbalanced, hard_closed,
  ledger_not_found, unknown_account, wrong_ledger, unknown_cost_center, unknown_project,
  duplicate_number, missing_fx_rate, Txn, Db,
}

unfoldable pub ledger_by : ℕ → Db → Option Ledger
ledger_by id db = find (λ l. l.id == id) db.ledgers

-- `fx::lookup(…).map_err(MissingFxRate)`
fx_result : {A : Type 0} → Result FxError A → Result Error A
fx_result (ok a) = ok a
fx_result (err e) = err (missing_fx_rate e)

-- The base-currency amount of one line: derived from its foreign leg, or as supplied.
unfoldable pub line_amount : Env → Db → String → ℕ → TxnLineInput → Result Error ℤ
unfolding fx_result
line_amount env db base date l = elim l.foreign [
  | none ↦ ok l.signed_amount
  | some f ↦ fx_result (Fx.lookup env db.fx_rates db.fx_rates f.currency base date) >>= λ rate.
      ok (derive_base_amount env f.signed_amount rate)
]

unfoldable pub derive_lines : Env → Db → String → ℕ → List TxnLineInput → Result Error (List ℤ)
unfolding line_amount
derive_lines env db base date [] = ok []
derive_lines env db base date (l ∷ ls) = do
  a ← line_amount env db base date l
  as' ← derive_lines env db base date ls
  ok (a ∷ as')

abbrev pub is_some {ℓ} : {A : Type ℓ} → Option A → Bool
is_some none = false
is_some (some _) = true

abbrev pub supplied : List TxnLineInput → List ℤ
supplied [] = []
supplied (l ∷ ls) = l.signed_amount ∷ supplied ls

unfoldable pub effective_amounts : Env → Db → NewTransaction → Result Error (List ℤ)
unfolding ledger_by derive_lines
effective_amounts env db new =
    if exists (λ l. is_some l.foreign) new.lines
    then (ok_or (ledger_by new.ledger_id db) ledger_not_found >>= λ ledger.
        derive_lines env db ledger.base_currency new.txn_date new.lines)
    else ok (supplied new.lines)

abbrev pub is_debit : ℤ → Bool
is_debit a = leb_ℤ (pos 0) a

-- The loop over `effective` that adds up the debits and the credits.
unfoldable pub tally : ℕ → ℕ → List ℤ → ℕ × ℕ
tally debits credits [] = (debits, credits)
tally debits credits (a ∷ as') =
    tally (if is_debit a then debits + abs a else debits)
      (if is_debit a then credits else credits + abs a) as'

unfoldable pub check_balance : List ℤ → Result Error (Unit {0})
unfolding tally
check_balance amounts =
    let (debits, credits) = tally 0 0 amounts in
    fail_if (not (debits == credits)) (unbalanced debits credits)

-- MAX over a nullable column: NULL rows do not count.
abbrev pub max_option : Option ℕ → Option ℕ → Option ℕ
max_option none b = b
max_option (some a) none = some a
max_option (some a) (some b) = some (max a b)

unfoldable pub max_through : ℕ → List ClosedPeriod → Option ℕ
max_through ledger [] = none
max_through ledger (p ∷ ps) =
    max_option (if p.ledger_id == ledger then p.closed_through else none) (max_through ledger ps)

unfoldable pub max_year : ℕ → List ClosedPeriod → Option ℕ
max_year ledger [] = none
max_year ledger (p ∷ ps) =
    max_option (if p.ledger_id == ledger then p.period_year else none) (max_year ledger ps)

-- `closed_through_for` and `closed_through_in_tx`, which send the same query
unfoldable pub closed_through : Env → Db → ℕ → Option ℕ
unfolding max_through max_year
closed_through env db ledger = elim (max_through ledger db.closed_periods) [
  | some d ↦ some d
  | none ↦ elim (max_year ledger db.closed_periods) [ some y ↦ env.december_31 y | none ↦ none ]
]

unfoldable pub is_closed : Option ℕ → ℕ → Bool
is_closed none date = false
is_closed (some w) date = leb date w

-- `watermark.unwrap_or(date)`
abbrev pub unwrap_or : {A : Type 0} → Option A → A → A
unwrap_or none d = d
unwrap_or (some a) d = a

unfoldable pub check_open : Env → Db → ℕ → ℕ → Result Error (Unit {0})
unfolding closed_through is_closed
check_open env db ledger date =
    let watermark = closed_through env db ledger in
    fail_if (is_closed watermark date) (hard_closed ledger (unwrap_or watermark date))

abbrev pub in_scope : ℕ → ℕ → List Scoped → Bool
in_scope id ledger rows = exists (λ r. r.id == id && r.ledger_id == ledger) rows

unfoldable pub check_accounts : Db → ℕ → List TxnLineInput → Result Error (Unit {0})
check_accounts db ledger [] = ok tt
check_accounts db ledger (l ∷ ls) =
    fail_if (not (in_scope l.account_id ledger db.accounts)) (
      if exists (λ r. r.id == l.account_id) db.accounts
      then wrong_ledger l.account_id
      else unknown_account l.account_id)
    >> check_accounts db ledger ls

-- `if let Some(id) = … { SELECT …; return Err(…) }`
abbrev pub check_dimension : List Scoped → ℕ → Option ℕ → (ℕ → Error) → Result Error (Unit {0})
check_dimension rows ledger none bad = ok tt
check_dimension rows ledger (some id) bad = fail_if (not (in_scope id ledger rows)) (bad id)

unfoldable pub check_dimensions : Db → ℕ → List TxnLineInput → Result Error (Unit {0})
check_dimensions db ledger [] = ok tt
check_dimensions db ledger (l ∷ ls) =
    check_dimension db.cost_centers ledger l.cost_center_id unknown_cost_center
    >> (check_dimension db.projects ledger l.project_id unknown_project
        >> check_dimensions db ledger ls)

-- `number_year` is generated from `txn_date`.
abbrev pub has_number : Env → ℕ → ℕ → Text → Txn → Bool
has_number env ledger year number t =
    t.ledger_id == ledger
    && env.year_of t.txn_date == year
    && elim t.number [ none ↦ false | some n ↦ text_eq n number ]

abbrev pub in_year : Env → ℕ → ℕ → Txn → Bool
in_year env ledger year t = t.ledger_id == ledger && env.year_of t.txn_date == year

-- `format!("{year}-{:06}", n)`
unfoldable pub format_number : ℕ → ℕ → Text
format_number year n = show year ++ (45 ∷ show_padded 6 n)

-- The user's number, trimmed; `none` when it is absent or blank.
unfoldable pub user_number : Option Text → Option Text
user_number none = none
user_number (some s) = elim (trim s) [ [] ↦ none | c ∷ r ↦ some (c ∷ r) ]

unfoldable pub resolve_number : Env → Db → NewTransaction → Result Error Text
unfolding user_number format_number
resolve_number env db new =
    let year = env.year_of new.txn_date in
    elim (user_number new.number) [
      | some n ↦
          fail_if (exists (has_number env new.ledger_id year n) db.transactions)
            (duplicate_number year n)
          >> ok n
      | none ↦ ok (format_number year (count (in_year env new.ledger_id year) db.transactions + 1))
    ]

-- Σ of the amounts that are not negative
unfoldable pub journal_total : List ℤ → ℕ
journal_total [] = 0
journal_total (a ∷ as') = (if is_debit a then abs a else 0) + journal_total as'

-- The threshold of the ledger; NULL and negative ones switch the gate off.
unfoldable pub over_threshold : Option Ledger → ℕ → Bool
over_threshold none total = false
over_threshold (some l) total = elim l.approval_threshold [
  | none ↦ false
  | some t ↦ leb_ℤ (pos 0) t && leb_ℤ t (pos total)
]

-- Must the journal wait for a second user?
unfoldable pub needs_approval : Db → Bool → String → ℕ → ℕ → Bool
unfolding over_threshold ledger_by
needs_approval db is_draft requested ledger total =
    not is_draft
    && (str_eq requested "standard" || str_eq requested "adjusting")
    && over_threshold (ledger_by ledger db) total
