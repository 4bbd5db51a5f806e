-- ===== src/Claims/StatusOf.antt =====
-- The status of a claim in the table of claims, and what the statements of the handlers do to it.
use openaccounting.Prelude.{
  ℕ, String, ◌≡◌, refl, Option, none, some, List, [], ◌∷◌, ◌==◌, if◌then◌else◌, arith,
}
use openaccounting.Prelude.Tables.{find, update}
use openaccounting.Claims.Data.{Claim, Db}
use openaccounting.Claims.Access.{claim_by}

abbrev status_field : Option Claim → Option String
status_field none = none
status_field (some c) = some c.status

abbrev pub status_of : Db → ℕ → Option String
status_of db claim = status_field (find (claim_by claim) db.claims)

abbrev pub replaced : String → Option String → Option String
replaced s none = none
replaced s (some _) = some s

-- A statement sets the status of one claim, and of no other.
abbrev pub Sets : Db → Db → ℕ → String → Type 0
Sets db db' claim s =
    (k : ℕ) → status_of db' k ≡ (if claim == k then replaced s (status_of db k) else status_of db k)

-- A statement leaves the status of every claim.
abbrev pub Leaves : Db → Db → Type 0
Leaves db db' = (k : ℕ) → status_of db' k ≡ status_of db k

pub find-update :
    (f : Claim → Claim) (s : String) (claim k : ℕ) (cs : List Claim)
    → ((c : Claim) → (f c).id ≡ c.id)
    → ((c : Claim) → (f c).status ≡ s)
    → status_field (find (claim_by k) (update (claim_by claim) f cs)) ≡ (
        if claim == k
        then replaced s (status_field (find (claim_by k) cs))
        else status_field (find (claim_by k) cs))
find-update f s claim k [] same sets = ground arith
find-update f s claim k (c ∷ cs) same sets =
    ground (arith, same c, sets c, find-update f s claim k cs same sets)

pub find-update_kept :
    (f : Claim → Claim) (claim k : ℕ) (cs : List Claim)
    → ((c : Claim) → (f c).id ≡ c.id)
    → ((c : Claim) → (f c).status ≡ c.status)
    → status_field (find (claim_by k) (update (claim_by claim) f cs))
      ≡ status_field (find (claim_by k) cs)
find-update_kept f claim k [] same kept = refl
find-update_kept f claim k (c ∷ cs) same kept =
    ground (arith, same c, kept c, find-update_kept f claim k cs same kept)
