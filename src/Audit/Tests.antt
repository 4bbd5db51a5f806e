-- ===== src/Audit/Tests.antt =====
-- The theorems about the audit chain at concrete tables. The digest of the tests is a sum of the
-- bytes in 32 places.
use openaccounting.Prelude.{
  ℕ, zero, suc, ◌+◌, ◌%◌, ◌^◌, ◌<◌, none, some, List, [], ◌∷◌, ◌≡◌, ◌↔◌, ◌⊎◌, refl, arith, All,
}
use openaccounting.Prelude.Texts.{text_eq}
use openaccounting.Audit.Encode.{
  Bytes, Content, IsContent, canonical_bytes, le_bytes, push_opt_uuid, push_str, push_opt_json,
}
use openaccounting.Audit.Encoding.{canonical_bytes-injective}
use openaccounting.Audit.Chain
use openaccounting.Audit.Chain.{
  ensure_backfilled, ChainRow, precedes, in_order, log_hashed, verify, tail_hash, last_hash,
  compute_hash, walk, check_row, check_first,
}
use openaccounting.Audit.Verify.{IsHashed, IsChain, verify-IsChain, log_hashed-intact}
use openaccounting.Audit.Backfill.{ensure_backfilled-IsHashed}
use openaccounting.Audit.Tamper.{contents, Collision, verify-tail}

abbrev sum : Bytes → ℕ
sum [] = 0
sum (b ∷ bytes) = b + sum bytes

abbrev copies : ℕ → ℕ → Bytes
copies zero b = []
copies (suc n) b = b ∷ copies n b

abbrev digest : Bytes → Bytes
digest bytes = copies 32 (sum bytes % 256)

abbrev entry : ℕ → ℕ → Content
entry user time = record {
  ledger_id = none;
  actor_id = copies 16 user;
  action = 99 ∷ [];
  entity_type = 116 ∷ [];
  entity_id = none;
  old_value = none;
  new_value = some (123 ∷ 125 ∷ []);
  created_at = time;
}

abbrev one : List ChainRow
one = log_hashed digest 1 (entry 7 100) []

abbrev two : List ChainRow
two = log_hashed digest 2 (entry 8 200) one

entry-IsContent : (user time : ℕ) → time < 2 ^ 64 → IsContent (entry user time)
entry-IsContent user time h = record {
  ledger = tt;
  actor = refl;
  action = omega arith;
  entity_type = omega arith;
  entity = tt;
  old_value = tt;
  new_value = omega arith;
  created_at = h;
}

canonical_bytes-injective_example : entry 7 100 ≡ entry 7 100
canonical_bytes-injective_example =
    canonical_bytes-injective (entry 7 100) (entry 7 100) (entry-IsContent 7 100 (omega arith))
      (entry-IsContent 7 100 (omega arith)) refl

verify-IsChain_example : (verify digest two ≡ []) ↔ IsChain digest none (in_order two)
verify-IsChain_example = verify-IsChain digest two

log_hashed-intact_example : All IsHashed two × (verify digest two ≡ [])
unfolding log_hashed verify walk in_order check_first tail_hash last_hash compute_hash
log_hashed-intact_example =
    log_hashed-intact digest 2 (entry 8 200) one (refl, tt) refl (omega arith, tt)

abbrev first : ChainRow
first = Chain.chained digest 1 none (entry 7 100)

abbrev second : ChainRow
second = Chain.chained digest 2 first.hash (entry 8 200)

verify-tail_example :
    ((first.hash ≡ first.hash) × (contents (second ∷ []) ≡ contents (second ∷ [])))
    ⊎ Collision digest
unfolding compute_hash canonical_bytes le_bytes push_opt_uuid push_str push_opt_json verify walk
    in_order check_row check_first tail_hash last_hash text_eq
verify-tail_example =
    verify-tail digest first first (second ∷ []) (second ∷ []) (first ∷ second ∷ [])
      (first ∷ second ∷ []) refl refl
      (
        ((_, refl, refl), entry-IsContent 7 100 (omega arith)),
        (((_, refl, refl), entry-IsContent 8 200 (omega arith)), tt),
      )
      (
        ((_, refl, refl), entry-IsContent 7 100 (omega arith)),
        (((_, refl, refl), entry-IsContent 8 200 (omega arith)), tt),
      )
      refl refl refl refl

-- Three rows, the last two without hashes.
abbrev partly_hashed : List ChainRow
partly_hashed =
    first
    ∷ record { id = 3; prev_hash = none; hash = none; content = entry 9 300 }
    ∷ record { id = 2; prev_hash = none; hash = none; content = entry 8 200 }
    ∷ []

ensure_backfilled-IsHashed_example :
    All IsHashed (ensure_backfilled digest partly_hashed).1
    × (ensure_backfilled digest (ensure_backfilled digest partly_hashed).1
        ≡ (0, (ensure_backfilled digest partly_hashed).1))
ensure_backfilled-IsHashed_example = ensure_backfilled-IsHashed digest partly_hashed
