-- ===== src/Audit/Encoding.antt =====
-- The canonical bytes determine the row: two rows with the same bytes have the same content.
use native.Mathlib.Nat.{pow-suc}
use mathlib.Core.List.{append_assoc}
use openaccounting.Prelude.{
  ℕ, zero, suc, ◌/◌, ◌%◌, ◌^◌, ◌<◌, Option, none, some, [], ◌∷◌, ◌++◌, ◌≡◌, refl, arith, ap, ◌∙◌,
  sym, length,
}
use openaccounting.Audit.Encode.{
  Bytes, Content, le_bytes, push_opt_uuid, push_str, push_opt_json, canonical_bytes, IsUuid,
  IsShort, IsContent,
}

length-le_bytes : (k n : ℕ) → length (le_bytes k n) ≡ k
unfolding le_bytes
length-le_bytes zero n = refl
length-le_bytes (suc k) n = ap suc (length-le_bytes k (n / 256))

le_bytes-injective : (k m n : ℕ) → m < 256 ^ k → n < 256 ^ k → le_bytes k m ≡ le_bytes k n → m ≡ n
unfolding le_bytes
le_bytes-injective zero m n hm hn h = omega arith
le_bytes-injective (suc k) m n hm hn h =
    let low : m % 256 ≡ n % 256 = cc in
    let high : le_bytes k (m / 256) ≡ le_bytes k (n / 256) = cc in
    let rest =
      le_bytes-injective k (m / 256) (n / 256) (omega (arith, pow-suc 256 k))
        (omega (arith, pow-suc 256 k)) high in
    omega arith

-- Two texts that begin with parts of one length agree on the parts and on what follows.
pub split_eq : (a b s t : Bytes) → length a ≡ length b → a ++ s ≡ b ++ t → (a ≡ b) × (s ≡ t)
split_eq [] [] s t n h = (refl, h)
split_eq [] (y ∷ b) s t n h = absurd (omega arith)
split_eq (x ∷ a) [] s t n h = absurd (omega arith)
split_eq (x ∷ a) (y ∷ b) s t n h =
    let (ea, es) = split_eq a b s t (omega arith) (cc) in (ground arith, es)

opt_uuid_eq :
    (u v : Option Bytes) (s t : Bytes)
    → IsUuid u
    → IsUuid v
    → push_opt_uuid u ++ s ≡ push_opt_uuid v ++ t
    → (u ≡ v) × (s ≡ t)
unfolding push_opt_uuid
opt_uuid_eq none none s t hu hv h = (refl, cc)
opt_uuid_eq none (some v) s t hu hv h = absurd (ground arith)
opt_uuid_eq (some u) none s t hu hv h = absurd (ground arith)
opt_uuid_eq (some u) (some v) s t hu hv h =
    let (e, r) = split_eq u v s t (omega arith) (cc) in (ap some e, r)

text_split :
    (a b s t : Bytes)
    → length a < 2 ^ 64
    → length b < 2 ^ 64
    → (le_bytes 8 (length a) ++ a) ++ s ≡ (le_bytes 8 (length b) ++ b) ++ t
    → (a ≡ b) × (s ≡ t)
text_split a b s t ha hb h =
    let (lengths, rest) =
      split_eq (le_bytes 8 (length a)) (le_bytes 8 (length b)) (a ++ s) (b ++ t)
        (length-le_bytes 8 (length a) ∙ sym (length-le_bytes 8 (length b)))
        (simp append_assoc at h) in
    split_eq a b s t
      (le_bytes-injective 8 (length a) (length b) (omega arith) (omega arith) lengths) rest

push_str_eq :
    (a b s t : Bytes)
    → length a < 2 ^ 64
    → length b < 2 ^ 64
    → push_str a ++ s ≡ push_str b ++ t
    → (a ≡ b) × (s ≡ t)
unfolding push_str
push_str_eq = text_split

opt_json_eq :
    (u v : Option Bytes) (s t : Bytes)
    → IsShort u
    → IsShort v
    → push_opt_json u ++ s ≡ push_opt_json v ++ t
    → (u ≡ v) × (s ≡ t)
unfolding push_opt_json
opt_json_eq none none s t hu hv h = (refl, cc)
opt_json_eq none (some v) s t hu hv h = absurd (ground arith)
opt_json_eq (some u) none s t hu hv h = absurd (ground arith)
opt_json_eq (some u) (some v) s t hu hv h =
    let (e, r) = text_split u v s t hu hv (cc) in (ap some e, r)

-- Two rows with the same canonical bytes have the same content, if their identifiers have 16
-- bytes, and their texts, their values and their times fit 64 bits.
pub canonical_bytes-injective :
    (c d : Content) → IsContent c → IsContent d → canonical_bytes c ≡ canonical_bytes d → c ≡ d
unfolding canonical_bytes
canonical_bytes-injective c d hc hd h =
    let (e1, h1) = opt_uuid_eq c.ledger_id d.ledger_id _ _ hc.ledger hd.ledger h in
    let (e2, h2) = split_eq c.actor_id d.actor_id _ _ (hc.actor ∙ sym hd.actor) h1 in
    let (e3, h3) = push_str_eq c.action d.action _ _ hc.action hd.action h2 in
    let (e4, h4) = push_str_eq c.entity_type d.entity_type _ _ hc.entity_type hd.entity_type h3 in
    let (e5, h5) = opt_uuid_eq c.entity_id d.entity_id _ _ hc.entity hd.entity h4 in
    let (e6, h6) = opt_json_eq c.old_value d.old_value _ _ hc.old_value hd.old_value h5 in
    let (e7, h7) = opt_json_eq c.new_value d.new_value _ _ hc.new_value hd.new_value h6 in
    let e8 = le_bytes-injective 8 c.created_at d.created_at hc.created_at hd.created_at h7 in
    ground arith
