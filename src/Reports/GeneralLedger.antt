-- ===== src/Reports/GeneralLedger.antt =====
-- `src/reports/general_ledger.rs`: the journal of a period and the balances of the accounts.
use openaccounting.Prelude.{
  ℕ, String, Bool, true, ◌&&◌, Option, some, none, List, [], ◌∷◌, map, leb, ◌==◌, if◌then◌else◌,
}
use openaccounting.Prelude.Int.{ℤ}
use openaccounting.Prelude.Tables.{find}
use openaccounting.Prelude.Sums.{order_by}
use openaccounting.Prelude.Texts.{Text}
use openaccounting.Posting.Data.{Direction, debit, credit, Txn, Posting, Db}
use openaccounting.Reports.Data.{Account, empty, is_posted, account_net, accounts_of, AccountNet}
use openaccounting.Reports.BalanceSheet.{negated}
use openaccounting.Reports.TrialBalance.{is_debit_normal}

pub record GeneralLedgerEntry : Type 0 where
  pub txn_id : ℕ
  pub txn_date : ℕ
  pub description : String
  pub payee : String
  pub account_id : ℕ
  pub account_name : Text
  pub direction : Direction
  pub amount : ℕ
  pub memo : String

-- A row of the join of `postings`, `transactions` and `accounts`.
pub record JournalRow : Type 0 where
  pub p : Posting
  pub t : Txn
  pub a : Account

abbrev pub unwrap_or_default : Option String → String
unwrap_or_default none = ""
unwrap_or_default (some s) = s

abbrev pub entry : JournalRow → GeneralLedgerEntry
entry r = record {
  txn_id = r.t.id;
  txn_date = r.t.txn_date;
  description = r.t.description;
  payee = unwrap_or_default r.t.payee;
  account_id = r.a.id;
  account_name = r.a.name;
  direction = r.p.direction;
  amount = r.p.amount;
  memo = unwrap_or_default r.p.memo;
}

-- The transaction of a posting, if it is one that the query reports.
abbrev pub txn_of : List Txn → ℕ → ℕ → ℕ → ℕ → Option Txn
txn_of ts ledger from to id =
    find
      (λ (t : Txn).
        t.id == id
        && t.ledger_id == ledger
        && leb from t.txn_date
        && leb t.txn_date to
        && is_posted t)
      ts

abbrev pub is_wanted : Option ℕ → ℕ → Bool
is_wanted none account = true
is_wanted (some wanted) account = account == wanted

abbrev pub joined : Posting → Option Txn → Option Account → List JournalRow → List JournalRow
joined p none a rest = rest
joined p (some t) none rest = rest
joined p (some t) (some a) rest = record { p = p; t = t; a = a } ∷ rest

-- The inner joins by the two primary keys.
unfoldable pub journal_rows :
    List Txn → List Account → ℕ → ℕ → ℕ → Option ℕ → List Posting → List JournalRow
journal_rows ts accounts ledger from to wanted [] = []
journal_rows ts accounts ledger from to wanted (p ∷ ps) =
    let rest = journal_rows ts accounts ledger from to wanted ps in
    if is_wanted wanted p.account_id
    then joined p (txn_of ts ledger from to p.transaction_id)
        (find (λ (a : Account). a.id == p.account_id) accounts) rest
    else rest

-- The balance of an account on its normal side.
abbrev pub balance : AccountNet → ℕ × ℤ
balance n = (n.account.id, if is_debit_normal n.account.type_str then n.net else negated n.net)

-- `before` is `ORDER BY t.txn_date, t.created_at, p.id`. The balances are a map in the source.
unfoldable pub build_general_ledger :
    (JournalRow → JournalRow → Bool)
    → Db
    → List Account
    → ℕ
    → ℕ
    → ℕ
    → Option ℕ
    → List GeneralLedgerEntry × List (ℕ × ℤ)
build_general_ledger before db accounts ledger from to wanted = (
  map entry
      (order_by before (journal_rows db.transactions accounts ledger from to wanted db.postings)),
  map (λ a. balance (account_net db to empty a)) (accounts_of ledger accounts),
)

abbrev pub entry_debit : GeneralLedgerEntry → ℕ
entry_debit e = elim e.direction [ debit ↦ e.amount | credit ↦ 0 ]

abbrev pub entry_credit : GeneralLedgerEntry → ℕ
entry_credit e = elim e.direction [ debit ↦ 0 | credit ↦ e.amount ]
