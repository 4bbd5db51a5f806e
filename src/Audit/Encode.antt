-- ===== src/Audit/Encode.antt =====
-- `canonical_bytes` and its parts (src/audit/chain.rs). Texts are their UTF-8 bytes, JSON values
-- the bytes of `serde_json::to_vec`, identifiers their 16 bytes, and times their microseconds.
use openaccounting.Prelude.{
  ℕ, zero, suc, ◌/◌, ◌%◌, ◌^◌, ◌<◌, Option, none, some, List, [], ◌∷◌, ◌++◌, ◌≡◌, length,
}

abbrev pub Bytes : Type 0
Bytes = List ℕ

-- The hashed columns of `audit_entries`.
pub record Content : Type 0 where
  pub ledger_id : Option Bytes
  pub actor_id : Bytes
  pub action : Bytes
  pub entity_type : Bytes
  pub entity_id : Option Bytes
  pub old_value : Option Bytes
  pub new_value : Option Bytes
  pub created_at : ℕ

-- The lowest `k` bytes of a number, lowest first: `to_le_bytes`.
unfoldable pub le_bytes : ℕ → ℕ → Bytes
le_bytes zero n = []
le_bytes (suc k) n = (n % 256) ∷ le_bytes k (n / 256)

unfoldable pub push_opt_uuid : Option Bytes → Bytes
push_opt_uuid (some u) = 1 ∷ u
push_opt_uuid none = 0 ∷ []

unfoldable pub push_str : Bytes → Bytes
push_str s = le_bytes 8 (length s) ++ s

unfoldable pub push_opt_json : Option Bytes → Bytes
push_opt_json (some j) = 1 ∷ (le_bytes 8 (length j) ++ j)
push_opt_json none = 0 ∷ []

unfoldable pub canonical_bytes : Content → Bytes
canonical_bytes c =
    push_opt_uuid c.ledger_id
    ++ (c.actor_id
        ++ (push_str c.action
            ++ (push_str c.entity_type
                ++ (push_opt_uuid c.entity_id
                    ++ (push_opt_json c.old_value
                        ++ (push_opt_json c.new_value ++ le_bytes 8 c.created_at))))))

-- The widths that the types of the source guarantee.
abbrev pub IsUuid : Option Bytes → Type 0
IsUuid none = Unit
IsUuid (some u) = length u ≡ 16

abbrev pub IsShort : Option Bytes → Type 0
IsShort none = Unit
IsShort (some j) = length j < 2 ^ 64

pub record IsContent (c : Content) : Type 0 where
  pub ledger : IsUuid c.ledger_id
  pub actor : length c.actor_id ≡ 16
  pub action : length c.action < 2 ^ 64
  pub entity_type : length c.entity_type < 2 ^ 64
  pub entity : IsUuid c.entity_id
  pub old_value : IsShort c.old_value
  pub new_value : IsShort c.new_value
  pub created_at : c.created_at < 2 ^ 64
