-- ===== src/Audit/Backfill.antt =====
-- What `ensure_backfilled` leaves in the rows (src/audit/chain.rs).
use openaccounting.Prelude.{
  ℕ, Bool, true, false, not, Option, some, List, [], ◌∷◌, ◌≡◌, refl, arith, ◌==◌, ==_refl, All,
  All-map, Bool-cases, inl, inr,
}
use openaccounting.Prelude.Tables.{select, update, exists}
use openaccounting.Audit.Encode.{Bytes, canonical_bytes}
use openaccounting.Audit.Chain.{
  ChainRow, is_some, insert, in_order, backfill, unhashed, ensure_backfilled, compute_hash,
  tail_hash,
}
use openaccounting.Audit.Verify.{IsHashed}

abbrev has_id : ℕ → ChainRow → Bool
has_id id m = m.id == id

-- Every row without a hash is still to be visited.
abbrev IsCovered : List ChainRow → ChainRow → Type 0
IsCovered missing r = is_some r.hash ≡ false → exists (has_id r.id) missing ≡ true

module _ (sha256 : Bytes → Bytes) where
  update-IsCovered :
      (prev : Option Bytes) (hash : Bytes) (r : ChainRow) (missing rows : List ChainRow)
      → All (IsCovered (r ∷ missing)) rows
      → All (IsCovered missing) (
          update
            (λ (s : ChainRow). s.id == r.id)
            (λ (s : ChainRow). record s { prev_hash = prev; hash = some hash })
            rows)
  update-IsCovered prev hash r missing [] h = tt
  update-IsCovered prev hash r missing (s ∷ rows) (here, h) =
      (λ e. ground arith, update-IsCovered prev hash r missing rows h)

  backfill-IsHashed :
      (prev : Option Bytes) (missing rows : List ChainRow)
      → All (IsCovered missing) rows
      → All IsHashed (backfill sha256 prev missing rows)
  unfolding backfill
  backfill-IsHashed prev [] rows h =
      All-map (IsCovered []) IsHashed rows
        (λ r covered. elim (Bool-cases (is_some r.hash)) [
          | inl e ↦ e
          | inr e ↦ absurd (ground arith)
        ])
        h
  backfill-IsHashed prev (r ∷ missing) rows h =
      let hash = compute_hash sha256 prev (canonical_bytes r.content) in
      backfill-IsHashed (some hash) missing
        (update (λ (s : ChainRow). s.id == r.id)
          (λ (s : ChainRow). record s { prev_hash = prev; hash = some hash }) rows)
        (update-IsCovered prev hash r missing rows h)

  exists-insert :
      (id : ℕ) (r : ChainRow) (rows : List ChainRow)
      → exists (has_id id) (insert r rows) ≡ exists (has_id id) (r ∷ rows)
  exists-insert id r [] = refl
  exists-insert id r (s ∷ rows) = ground (arith, exists-insert id r rows)

  exists-in_order :
      (id : ℕ) (rows : List ChainRow) → exists (has_id id) (in_order rows) ≡ exists (has_id id) rows
  unfolding in_order
  exists-in_order id [] = refl
  exists-in_order id (r ∷ rows) =
      ground (arith, exists-insert id r (in_order rows), exists-in_order id rows)

  select-IsCovered :
      (rows : List ChainRow)
      → All (IsCovered (select (λ (r : ChainRow). not (is_some r.hash)) rows)) rows
  select-IsCovered [] = tt
  select-IsCovered (r ∷ rows) = (
    λ e. ground (arith, ==_refl r.id),
    All-map (IsCovered (select (λ (r : ChainRow). not (is_some r.hash)) rows))
        (IsCovered (select (λ (r : ChainRow). not (is_some r.hash)) (r ∷ rows))) rows
        (λ s covered e. ground (arith, covered e)) (select-IsCovered rows),
  )

  -- After `ensure_backfilled` every row has a hash, and a second call finds nothing to do.
  pub ensure_backfilled-IsHashed :
      (rows : List ChainRow)
      → All IsHashed (ensure_backfilled sha256 rows).1
        × (ensure_backfilled sha256 (ensure_backfilled sha256 rows).1
            ≡ (0, (ensure_backfilled sha256 rows).1))
  unfolding ensure_backfilled unhashed in_order backfill
  ensure_backfilled-IsHashed rows =
      let hashed = backfill-IsHashed (tail_hash rows) (unhashed rows) rows (
        All-map (IsCovered (select (λ (r : ChainRow). not (is_some r.hash)) rows))
          (IsCovered (unhashed rows)) rows
          (λ s covered e. ground (
            arith,
            covered e,
            exists-in_order s.id (select (λ (r : ChainRow). not (is_some r.hash)) rows),
          ))
          (select-IsCovered rows)) in
      (hashed, idle (ensure_backfilled sha256 rows).1 hashed)
    where
      none_left :
          (l : List ChainRow)
          → All IsHashed l
          → select (λ (r : ChainRow). not (is_some r.hash)) l ≡ []
      none_left [] h = refl
      none_left (r ∷ l) (here, h) = ground (arith, none_left l h)

      idle : (l : List ChainRow) → All IsHashed l → ensure_backfilled sha256 l ≡ (0, l)
      idle l h = rw (none_left l h) refl
