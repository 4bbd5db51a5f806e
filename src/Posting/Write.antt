-- ===== src/Posting/Write.antt =====
-- The inserts of `create_with_kind`, with what the schema's constraints refuse. Fresh identifiers
-- (`gen_random_uuid()`) are arguments.
use openaccounting.Prelude.{
  ℕ, suc, String, Bool, ◌&&◌, ◌||◌, not, Option, none, some, List, [], ◌∷◌, ◌++◌, ◌==◌, str_eq,
  if◌then◌else◌, get_elem?,
}
use openaccounting.Prelude.Int.{ℤ, abs}
use openaccounting.Prelude.Tables.{exists}
use openaccounting.Prelude.Results.{Result, ok, ◌>>=◌, ◌>>◌, fail_if, ok_or}
use openaccounting.Prelude.Texts.{Text}
use openaccounting.Prelude.Foreign.{Env}
use openaccounting.Posting.Data.{
  debit, credit, Ledger, ForeignLeg, TxnLineInput, TaxLink, NewTransaction, Error, unbalanced,
  check_violation, unique_violation, Txn, Posting, PostingTax, Db,
}
use openaccounting.Posting.Checks.{is_debit, has_number}

-- The CHECK constraint on `transactions.kind`.
unfoldable pub is_kind : String → Bool
is_kind k =
    str_eq k "standard"
    || str_eq k "adjusting"
    || str_eq k "closing"
    || str_eq k "reversing"
    || str_eq k "recurring"
    || str_eq k "draft"
    || str_eq k "posted"
    || str_eq k "amortization"
    || str_eq k "pending"

unfoldable pub transaction_row : ℕ → Ledger → String → Text → NewTransaction → Txn
transaction_row id ledger kind number new = record {
  id = id;
  ledger_id = new.ledger_id;
  txn_date = new.txn_date;
  description = new.description;
  payee = new.payee;
  reference = new.reference;
  currency = ledger.base_currency;
  kind = kind;
  created_by = new.created_by;
  reverses_id = new.reverses_id;
  number = some number;
}

-- INSERT INTO transactions: the kind is checked, and the number is unique in its ledger and year.
unfoldable pub insert_transaction :
    Env → Db → ℕ → Ledger → String → Text → NewTransaction → Result Error Txn
unfolding transaction_row
insert_transaction env db id ledger kind number new =
    fail_if (not (is_kind kind)) check_violation
    >> (fail_if
          (exists (has_number env new.ledger_id (env.year_of new.txn_date) number) db.transactions)
          unique_violation
        >> ok (transaction_row id ledger kind number new))

abbrev foreign_magnitude : Option ForeignLeg → Option ℕ
foreign_magnitude none = none
foreign_magnitude (some f) = some (abs f.signed_amount)

abbrev foreign_code : Option ForeignLeg → Option String
foreign_code none = none
foreign_code (some f) = some f.currency

unfoldable pub posting_row : ℕ → ℕ → TxnLineInput → ℤ → Posting
posting_row id txn l amount = record {
  id = id;
  transaction_id = txn;
  account_id = l.account_id;
  amount = abs amount;
  direction = if is_debit amount then debit else credit;
  memo = l.memo;
  foreign_amount = foreign_magnitude l.foreign;
  foreign_currency = foreign_code l.foreign;
  cost_center_id = l.cost_center_id;
  project_id = l.project_id;
}

-- One posting for each line and its effective amount; CHECK (amount > 0). The i-th one has the
-- identifier `ids i`.
unfoldable pub posting_rows :
    (ℕ → ℕ) → ℕ → ℕ → List TxnLineInput → List ℤ → Result Error (List Posting)
unfolding posting_row
posting_rows ids i txn [] amounts = ok []
posting_rows ids i txn (l ∷ ls) [] = ok []
posting_rows ids i txn (l ∷ ls) (a ∷ as') =
    fail_if (abs a == 0) check_violation
    >> (posting_rows ids (suc i) txn ls as' >>= λ rest. ok (posting_row (ids i) txn l a ∷ rest))

abbrev is_link : ℕ → ℕ → PostingTax → Bool
is_link posting rate t = t.posting_id == posting && t.tax_rate_id == rate

-- The tax links, each on a posting of this transaction; UNIQUE (posting_id, tax_rate_id).
unfoldable pub tax_rows :
    List Posting → List PostingTax → List TaxLink → Result Error (List PostingTax)
tax_rows postings done [] = ok done
tax_rows postings done (k ∷ ks) = ok_or (get_elem? postings k.posting_idx) (unbalanced 0 0) >>= λ p.
    fail_if (exists (is_link p.id k.tax_rate_id) done) unique_violation
    >> tax_rows postings
        (done
          ++ record {
            posting_id = p.id;
            tax_rate_id = k.tax_rate_id;
            tax_amount = k.tax_amount;
            base_amount = k.base_amount;
          }
            ∷ [])
        ks
