-- ===== src/Audit/Tamper.antt =====
-- What the chain protects: two tables that `verify` accepts and that end in the same hash.
use openaccounting.Prelude.{
  ℕ, ◌<◌, Bool, true, false, none, some, List, [], ◌∷◌, ◌++◌, ◌≡◌, ◌≢◌, refl, arith, length, All,
  ◌⊎◌, inl, inr, subst,
}
use openaccounting.Prelude.Texts.{text_eq, text_eq_sound, text_eq_refl}
use openaccounting.Audit.Encode.{Bytes, Content, canonical_bytes, IsContent}
use openaccounting.Audit.Encoding.{split_eq, canonical_bytes-injective}
use openaccounting.Audit.Chain.{
  ChainRow, precedes, insert, in_order, last_hash, tail_hash, compute_hash, log_hashed, walk,
  verify, check_first,
}
use openaccounting.Audit.Verify.{IsChain, All-in_order, verify-IsChain}

-- Two different byte strings with one digest.
abbrev pub Collision : (Bytes → Bytes) → Type 0
Collision sha256 = (a b : Bytes) × (a ≢ b) × (sha256 a ≡ sha256 b)

-- A row that has a digest of 32 bytes, and content of the widths that its types guarantee.
abbrev pub IsStored : ChainRow → Type 0
IsStored r = ((h : Bytes) × (r.hash ≡ some h) × (length h ≡ 32)) × IsContent r.content

abbrev pub contents : List ChainRow → List Content
contents [] = []
contents (r ∷ rows) = r.content ∷ contents rows

module _ (sha256 : Bytes → Bytes) where
  hash_eq :
      (p q : Bytes) (c d : Content)
      → length p ≡ length q
      → IsContent c
      → IsContent d
      → compute_hash sha256 (some p) (canonical_bytes c)
        ≡ compute_hash sha256 (some q) (canonical_bytes d)
      → ((p ≡ q) × (c ≡ d)) ⊎ Collision sha256
  unfolding compute_hash
  hash_eq p q c d n hc hd h =
      decide (text_eq (p ++ canonical_bytes c) (q ++ canonical_bytes d)) refl
    where
      decide :
          (b : Bool)
          → text_eq (p ++ canonical_bytes c) (q ++ canonical_bytes d) ≡ b
          → ((p ≡ q) × (c ≡ d)) ⊎ Collision sha256
      decide true e =
          let (same, rest) =
            split_eq p q (canonical_bytes c) (canonical_bytes d) n (text_eq_sound _ _ e) in
          inl (same, canonical_bytes-injective c d hc hd rest)
      decide false e = inr (p ++ canonical_bytes c, q ++ canonical_bytes d, λ same. differ same, h)
        where
          differ : p ++ canonical_bytes c ≢ q ++ canonical_bytes d
          differ same = ground (arith, text_eq_refl (q ++ canonical_bytes d))

  chain_eq :
      (p q : Bytes) (rows others : List ChainRow)
      → length p ≡ 32
      → length q ≡ 32
      → All IsStored rows
      → All IsStored others
      → length rows ≡ length others
      → IsChain sha256 (some p) rows
      → IsChain sha256 (some q) others
      → last_hash (some p) rows ≡ last_hash (some q) others
      → ((p ≡ q) × (contents rows ≡ contents others)) ⊎ Collision sha256
  unfolding last_hash
  chain_eq p q [] [] np nq hs ks n h k e = inl (ground arith, refl)
  chain_eq p q [] (s ∷ others) np nq hs ks n h k e = absurd (omega arith)
  chain_eq p q (r ∷ rows) [] np nq hs ks n h k e = absurd (omega arith)
  chain_eq p q (r ∷ rows) (s ∷ others) np nq hs ks n h k e =
      let (((a, ra, na), rc), hs') = hs in
      let (((b, sb, nb), sc), ks') = ks in
      elim (chain_eq a b rows others na nb hs' ks' (omega arith)
        (subst (λ o. IsChain sha256 o rows) ra h.1) (subst (λ o. IsChain sha256 o others) sb k.1)
        (ground arith)) [
          | inr collision ↦ inr collision
          | inl (same, rest) ↦
              elim (hash_eq p q r.content s.content (omega arith) rc sc (ground arith)) [
                | inr collision ↦ inr collision
                | inl (pq, cd) ↦ inl (pq, ground arith)
              ]
        ]

  -- Let two tables of digests of 32 bytes and of rows of the schema's widths be given, of one
  -- length and both accepted by `verify`, that end in the same hash. Then their rows, but for the
  -- first, have the same contents in the order of time, or else two byte strings with the same
  -- digest are found.
  pub verify-tail :
      (r s : ChainRow) (rows others : List ChainRow) (all all' : List ChainRow)
      → in_order all ≡ r ∷ rows
      → in_order all' ≡ s ∷ others
      → All IsStored (r ∷ rows)
      → All IsStored (s ∷ others)
      → length rows ≡ length others
      → verify sha256 all ≡ []
      → verify sha256 all' ≡ []
      → tail_hash all ≡ tail_hash all'
      → ((r.hash ≡ s.hash) × (contents rows ≡ contents others)) ⊎ Collision sha256
  unfolding tail_hash last_hash
  verify-tail r s rows others all all' o o' hs ks n h k e =
      let chain = subst (λ l. IsChain sha256 none l) o ((verify-IsChain sha256 all).0 h) in
      let chain' = subst (λ l. IsChain sha256 none l) o' ((verify-IsChain sha256 all').0 k) in
      let (((a, ra, na), _), hs') = hs in
      let (((b, sb, nb), _), ks') = ks in
      elim (chain_eq a b rows others na nb hs' ks' n (subst (λ p. IsChain sha256 p rows) ra chain.1)
        (subst (λ p. IsChain sha256 p others) sb chain'.1) (ground arith)) [
          | inl (same, rest) ↦ inl (ground arith, rest)
          | inr collision ↦ inr collision
        ]

  insert-first :
      (r : ChainRow) (rows : List ChainRow)
      → All (λ s. precedes s r ≡ false) rows
      → insert r rows ≡ r ∷ rows
  insert-first r [] h = refl
  insert-first r (s ∷ rows) h = rw h.0 refl

  -- If a row comes before all others in the order of time, and so it does with the content `c` in
  -- place of its own, then `verify` finds the same breaks with either content: the first row's hash
  -- is never compared with its content.
  pub verify-first_row :
      (r : ChainRow) (rows : List ChainRow) (c : Content)
      → All (λ s. precedes s r ≡ false) rows
      → All (λ s. precedes s (record r { content = c }) ≡ false) rows
      → verify sha256 (record r { content = c } ∷ rows) ≡ verify sha256 (r ∷ rows)
  unfolding verify walk in_order check_first
  verify-first_row r rows c before before' =
      rw
        (
          insert-first r (in_order rows) (All-in_order _ rows before),
          insert-first (record r { content = c }) (in_order rows) (All-in_order _ rows before'),
        )
        refl

  -- Two entries that take the lock in the other order than their times make `verify` report a break
  -- in a table that nobody has changed.
  pub log_hashed-out_of_order :
      (i j : ℕ) (c d : Content)
      → d.created_at < c.created_at
      → verify sha256 (log_hashed sha256 j d (log_hashed sha256 i c [])) ≢ []
  unfolding verify walk in_order log_hashed check_first tail_hash last_hash
  log_hashed-out_of_order i j c d t = ground arith
