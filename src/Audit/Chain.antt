-- ===== src/Audit/Chain.antt =====
-- The hash chain of the audit log (src/audit/chain.rs). A table is the list of its rows in the order
-- of their insertion; SHA-256 is a parameter. The advisory lock makes each call one step.
use openaccounting.Prelude.{
  ℕ, Bool, true, false, ◌||◌, ◌&&◌, not, Option, none, some, List, [], ◌∷◌, ◌++◌, length,
  if◌then◌else◌, ltb, ◌==◌,
}
use openaccounting.Prelude.Tables.{select, update}
use openaccounting.Prelude.Texts.{text_eq}
use openaccounting.Audit.Encode.{Bytes, Content, canonical_bytes}

pub record ChainRow : Type 0 where
  pub id : ℕ
  pub prev_hash : Option Bytes
  pub hash : Option Bytes
  pub content : Content

pub data Reason : Type 0 where
  -- "first row carries a non-NULL prev_hash"
  first_row : Reason
  -- "prev_hash does not match the previous row's hash"
  broken_link : Reason
  -- "hash does not match recomputed SHA256 of row content"
  changed_content : Reason

pub record BreakPoint : Type 0 where
  pub id : ℕ
  pub reason : Reason

abbrev pub is_some : Option Bytes → Bool
is_some none = false
is_some (some _) = true

abbrev pub opt_eq : Option Bytes → Option Bytes → Bool
opt_eq none none = true
opt_eq none (some b) = false
opt_eq (some a) none = false
opt_eq (some a) (some b) = text_eq a b

-- ORDER BY created_at ASC, id ASC
abbrev pub precedes : ChainRow → ChainRow → Bool
precedes r s =
    ltb r.content.created_at s.content.created_at
    || (r.content.created_at == s.content.created_at && ltb r.id s.id)

abbrev pub insert : ChainRow → List ChainRow → List ChainRow
insert r [] = r ∷ []
insert r (s ∷ rows) = let rest = insert r rows in if precedes s r then s ∷ rest else r ∷ s ∷ rows

unfoldable pub in_order : List ChainRow → List ChainRow
in_order [] = []
in_order (r ∷ rows) = insert r (in_order rows)

-- The hash of the last row that has one.
unfoldable pub last_hash : Option Bytes → List ChainRow → Option Bytes
last_hash acc [] = acc
last_hash acc (r ∷ rows) = last_hash (if is_some r.hash then r.hash else acc) rows

-- SELECT hash … WHERE hash IS NOT NULL ORDER BY created_at DESC, id DESC LIMIT 1
unfoldable pub tail_hash : List ChainRow → Option Bytes
tail_hash rows = last_hash none (in_order rows)

-- SELECT … WHERE hash IS NULL ORDER BY created_at ASC, id ASC
unfoldable pub unhashed : List ChainRow → List ChainRow
unhashed rows = in_order (select (λ (r : ChainRow). not (is_some r.hash)) rows)

module _ (sha256 : Bytes → Bytes) where
  unfoldable pub compute_hash : Option Bytes → Bytes → Bytes
  compute_hash (some prev) content = sha256 (prev ++ content)
  compute_hash none content = sha256 content

  -- The row for some content that follows the hash `prev`.
  abbrev pub chained : ℕ → Option Bytes → Content → ChainRow
  chained id prev c = record {
    id = id;
    prev_hash = prev;
    hash = some (compute_hash prev (canonical_bytes c));
    content = c;
  }

  -- The schema makes the identifier of the new row.
  unfoldable pub log_hashed : ℕ → Content → List ChainRow → List ChainRow
  log_hashed id c rows = rows ++ chained id (tail_hash rows) c ∷ []

  -- The loop of `ensure_backfilled`: one UPDATE for each row that has no hash.
  unfoldable pub backfill : Option Bytes → List ChainRow → List ChainRow → List ChainRow
  backfill prev [] rows = rows
  backfill prev (r ∷ missing) rows =
      let hash = compute_hash prev (canonical_bytes r.content) in
      backfill (some hash) missing (
        update (λ (s : ChainRow). s.id == r.id)
          (λ (s : ChainRow). record s { prev_hash = prev; hash = some hash }) rows)

  unfoldable pub ensure_backfilled : List ChainRow → ℕ × List ChainRow
  ensure_backfilled rows = (length (unhashed rows), backfill (tail_hash rows) (unhashed rows) rows)

  unfoldable pub check_row : Bytes → ChainRow → List BreakPoint
  check_row expected_prev r =
      (if opt_eq r.prev_hash (some expected_prev)
        then []
        else record { id = r.id; reason = broken_link } ∷ [])
      ++ (if opt_eq r.hash (some (compute_hash r.prev_hash (canonical_bytes r.content)))
          then []
          else record { id = r.id; reason = changed_content } ∷ [])

  unfoldable pub check_first : ChainRow → List BreakPoint
  check_first r = if is_some r.prev_hash then record { id = r.id; reason = first_row } ∷ [] else []

  -- The loop of `verify`, with the hash of the row before.
  unfoldable pub walk : Option Bytes → List ChainRow → List BreakPoint
  walk prev [] = []
  walk none (r ∷ rows) = check_first r ++ walk r.hash rows
  walk (some expected) (r ∷ rows) = check_row expected r ++ walk r.hash rows

  unfoldable pub verify : List ChainRow → List BreakPoint
  verify rows = walk none (in_order rows)
