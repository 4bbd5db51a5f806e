-- ===== src/Audit/Verify.antt =====
-- What `verify` accepts, and that appending in the order of time keeps a table acceptable.
use openaccounting.Prelude.{
  ℕ, ◌<◌, Bool, true, false, Option, none, some, List, [], ◌∷◌, ◌++◌, ◌≡◌, refl, ◌↔◌, arith,
  if◌then◌else◌, All, ◌∙◌, ap, All-append,
}
use openaccounting.Prelude.Texts.{text_eq_sound, text_eq_refl}
use openaccounting.Audit.Encode.{Bytes, Content, canonical_bytes}
use openaccounting.Audit.Chain.{
  ChainRow, BreakPoint, is_some, opt_eq, precedes, insert, in_order, last_hash, tail_hash,
  compute_hash, chained, log_hashed, check_row, check_first, walk, verify,
}

abbrev pub IsHashed : ChainRow → Type 0
IsHashed r = is_some r.hash ≡ true

opt_eq_sound : (a b : Option Bytes) → opt_eq a b ≡ true → a ≡ b
opt_eq_sound none none h = refl
opt_eq_sound none (some b) h = cc
opt_eq_sound (some a) none h = cc
opt_eq_sound (some a) (some b) h = ap some (text_eq_sound a b h)

opt_eq_refl : (a : Option Bytes) → opt_eq a a ≡ true
opt_eq_refl none = refl
opt_eq_refl (some a) = text_eq_refl a

-- A row that is later than all others comes last.
insert-last :
    (r new : ChainRow) (rows : List ChainRow)
    → r.content.created_at < new.content.created_at
    → insert r (rows ++ new ∷ []) ≡ insert r rows ++ new ∷ []
insert-last r new [] h = ground arith
insert-last r new (s ∷ rows) h = ground (arith, insert-last r new rows)

pub in_order-last :
    (new : ChainRow) (rows : List ChainRow)
    → All (λ r. r.content.created_at < new.content.created_at) rows
    → in_order (rows ++ new ∷ []) ≡ in_order rows ++ new ∷ []
unfolding in_order
in_order-last new [] h = refl
in_order-last new (r ∷ rows) h =
    rw (in_order-last new rows h.1, insert-last r new (in_order rows) h.0) refl

All-insert :
    (P : ChainRow → Type 0) (r : ChainRow) (rows : List ChainRow)
    → P r
    → All P rows
    → All P (insert r rows)
All-insert P r [] p h = (p, tt)
All-insert P r (s ∷ rows) p h = split (precedes s r) (All-insert P r rows p h.1)
  where
    split :
        (b : Bool) → All P (insert r rows) → All P (if b then s ∷ insert r rows else r ∷ s ∷ rows)
    split true rest = (h.0, rest)
    split false rest = (p, h)

append-nil : (xs ys : List BreakPoint) → xs ++ ys ≡ [] → (xs ≡ []) × (ys ≡ [])
append-nil [] ys h = (refl, h)
append-nil (x ∷ xs) ys h = cc

pub All-in_order :
    (P : ChainRow → Type 0) (rows : List ChainRow) → All P rows → All P (in_order rows)
unfolding in_order
All-in_order P [] h = tt
All-in_order P (r ∷ rows) h = All-insert P r (in_order rows) h.0 (All-in_order P rows h.1)

-- The row after the hash `prev`, as `verify` wants it.
abbrev pub IsNext : (Bytes → Bytes) → Option Bytes → ChainRow → Type 0
IsNext sha256 none r = r.prev_hash ≡ none
IsNext sha256 (some e) r =
    (r.prev_hash ≡ some e)
    × (r.hash ≡ some (compute_hash sha256 (some e) (canonical_bytes r.content)))

-- Every row carries the hash of the row before it, and each but the first the hash of its own
-- content; the first carries no previous hash.
abbrev pub IsChain : (Bytes → Bytes) → Option Bytes → List ChainRow → Type 0
IsChain sha256 prev [] = Unit
IsChain sha256 prev (r ∷ rows) = IsNext sha256 prev r × IsChain sha256 r.hash rows

module _ (sha256 : Bytes → Bytes) where
  check_row_sound :
      (e : Bytes) (r : ChainRow) → check_row sha256 e r ≡ [] → IsNext sha256 (some e) r
  unfolding check_row
  check_row_sound e r h =
      let link : opt_eq r.prev_hash (some e) ≡ true = ground arith in
      let same = opt_eq_sound r.prev_hash (some e) link in
      let content : opt_eq r.hash
            (some (compute_hash sha256 r.prev_hash (canonical_bytes r.content)))
          ≡ true =
        ground arith in
      (
        same,
        opt_eq_sound r.hash _ content
            ∙ ap (λ p. some (compute_hash sha256 p (canonical_bytes r.content))) same,
      )

  check_row_complete :
      (e : Bytes) (r : ChainRow) → IsNext sha256 (some e) r → check_row sha256 e r ≡ []
  unfolding check_row
  check_row_complete e r (link, content) =
      rw
        (
          link,
          content,
          text_eq_refl e,
          text_eq_refl (compute_hash sha256 (some e) (canonical_bytes r.content)),
        )
        refl

  pub walk_sound :
      (prev : Option Bytes) (rows : List ChainRow)
      → walk sha256 prev rows ≡ []
      → IsChain sha256 prev rows
  unfolding walk check_first
  walk_sound prev [] h = tt
  walk_sound none (r ∷ rows) h = (ground arith, walk_sound r.hash rows (ground arith))
  walk_sound (some e) (r ∷ rows) h =
      let (here, rest) = append-nil (check_row sha256 e r) (walk sha256 r.hash rows) h in
      (check_row_sound e r here, walk_sound r.hash rows rest)

  pub walk_complete :
      (prev : Option Bytes) (rows : List ChainRow)
      → IsChain sha256 prev rows
      → walk sha256 prev rows ≡ []
  unfolding walk check_first
  walk_complete prev [] h = refl
  walk_complete none (r ∷ rows) h = ground (arith, walk_complete r.hash rows h.1)
  walk_complete (some e) (r ∷ rows) h =
      ground (arith, walk_complete r.hash rows h.1, check_row_complete e r h.0)

  -- `verify` reports nothing exactly when the rows in the order of their times form a chain: the
  -- first carries no previous hash, and every other row that follows a hash carries that hash and
  -- the digest of that hash and of its own content.
  pub verify-IsChain :
      (rows : List ChainRow) → (verify sha256 rows ≡ []) ↔ IsChain sha256 none (in_order rows)
  unfolding verify
  verify-IsChain rows = (walk_sound none (in_order rows), walk_complete none (in_order rows))

  IsChain-extend :
      (prev : Option Bytes) (rows : List ChainRow) (id : ℕ) (c : Content)
      → All IsHashed rows
      → IsChain sha256 prev rows
      → IsChain sha256 prev (rows ++ chained sha256 id (last_hash prev rows) c ∷ [])
  unfolding last_hash compute_hash
  IsChain-extend none [] id c hs h = (refl, tt)
  IsChain-extend (some e) [] id c hs h = ((refl, refl), tt)
  IsChain-extend prev (r ∷ rows) id c hs h =
      (h.0, rw hs.0 (IsChain-extend r.hash rows id c hs.1 h.1))

  -- If every row has a hash, `verify` reports nothing, and the new row is later than all others,
  -- then every row has a hash and `verify` reports nothing after `log_hashed`.
  pub log_hashed-intact :
      (id : ℕ) (c : Content) (rows : List ChainRow)
      → All IsHashed rows
      → verify sha256 rows ≡ []
      → All (λ r. r.content.created_at < c.created_at) rows
      → All IsHashed (log_hashed sha256 id c rows)
        × (verify sha256 (log_hashed sha256 id c rows) ≡ [])
  unfolding log_hashed verify tail_hash
  log_hashed-intact id c rows hs h later = (
    All-append IsHashed rows _ hs (refl, tt),
    rw (in_order-last (chained sha256 id (tail_hash rows) c) rows later) (
        walk_complete none _ (
          IsChain-extend none (in_order rows) id c (All-in_order IsHashed rows hs)
            (walk_sound none (in_order rows) h))),
  )
