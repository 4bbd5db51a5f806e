-- ===== src/Claims/Auditors.antt =====
-- Who is eligible as an approver (`eligible_approvers`) compared with who may write
-- (`ensure_writer`).
use openaccounting.Prelude.{
  ℕ, Bool, true, false, not, ◌≡◌, ◌≢◌, refl, ◌∙◌, ◌&&◌, ◌||◌, some, List, [], ◌∷◌, map, ◌==◌,
  str_eq, arith, Bool-cases, inl, inr,
}
use openaccounting.Prelude.Tables.{find, select, exists}
use openaccounting.Prelude.Results.{err}
use openaccounting.Claims.Data.{Ledger, Member, User, Db}
use openaccounting.Claims.Routing.{contains, is_owner, may_approve, eligible_approvers}
use openaccounting.Claims.Levels.{contains-distinct}
use openaccounting.Claims.Access.{forbidden, member_of, ensure_writer}

-- A user of the table that the query takes is among the users that it returns.
contains-select :
    (p : User → Bool) (user : ℕ) (us : List User)
    → exists (λ (u : User). u.id == user) us ≡ true
    → ((u : User) → u.id ≡ user → p u ≡ true)
    → contains (map (λ (u : User). u.id) (select p us)) user ≡ true
contains-select p user [] h all = cc
contains-select p user (u ∷ us) h all = elim (Bool-cases (u.id == user)) [
  | inl this ↦ rw (all u (ground arith)) (rw this refl)
  | inr other ↦ elim (Bool-cases (p u)) [
    | inl taken ↦ rw (taken, other) (contains-select p user us (rw other at h) all)
    | inr left ↦ rw left (contains-select p user us (rw other at h) all)
  ]
]

editor_of :
    (ledger user : ℕ) (ms : List Member) (m : Member)
    → find (member_of ledger user) ms ≡ some m
    → not (str_eq m.role "viewer") ≡ true
    → exists
        (λ (k : Member).
          (k.ledger_id == ledger && not (str_eq k.role "viewer")) && k.user_id == user)
        ms
      ≡ true
editor_of ledger user [] m h r = cc
editor_of ledger user (k ∷ ms) m h r = ground (arith, editor_of ledger user ms m)

or_true : (b : Bool) → ((b || true) && true) ≡ true
or_true true = refl
or_true false = refl

-- A member of a ledger with the role auditor, who is not its owner, is refused by ensure_writer,
-- and is still an eligible approver for the role Accountant.
pub eligible_approvers-auditor :
    (db : Db) (l : Ledger) (m : Member) (user ledger : ℕ)
    → find (λ (k : Ledger). k.id == ledger) db.ledgers ≡ some l
    → l.owner_id ≢ user
    → find (member_of ledger user) db.members ≡ some m
    → m.role ≡ "auditor"
    → exists (λ (u : User). u.id == user) db.users ≡ true
    → (contains (eligible_approvers db ledger "Accountant") user ≡ true)
      × (ensure_writer db user ledger ≡ err forbidden)
unfolding eligible_approvers ensure_writer
eligible_approvers-auditor db l m user ledger hl owner hm role known =
    let editor = editor_of ledger user db.members m hm (rw role refl) in
    let other : (l.owner_id == user) ≡ false = ground arith in
    (
      contains-distinct
            (map (λ (u : User). u.id) (select (may_approve db ledger "Accountant") db.users)) user
          ∙ contains-select (may_approve db ledger "Accountant") user db.users known
              (λ u e. rw (e, editor) (or_true (is_owner db ledger user))),
      rw (hl, other, hm, role) refl,
    )
