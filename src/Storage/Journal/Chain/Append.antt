-- ===== src/Storage/Journal/Chain/Append.antt =====
-- `_append_authority` keeps the chain.
use sentinel_edge.Prelude.{
  Option-cases, length, last, ℕ, suc, ◌+◌, ◌<◌, String, ◌≡◌, refl, subst, inl, inr, Option, none,
  some, List, [], ◌∷◌, ◌++◌, arith,
}
use sentinel_edge.Domain.Kinds.{Uuid, Instant, AuthorityMutationKind}
use sentinel_edge.Storage.Journal.{
  AuthorityPayload, AuthorityEvent, AuthoritySubtype, JournalStore, append_authority, next_position,
  next_ordinal, previous_position,
}
use sentinel_edge.Storage.Journal.Chain.{last_position, IsLinked, Chain, IsChained}

module _ {Float : Type 0} (digest json : AuthorityPayload Float → String) where
  -- The predecessor of the row that would follow.
  abbrev end_previous : ℕ → Option ℕ → List (AuthorityEvent Float) → Option ℕ
  end_previous n previous [] = previous
  end_previous n previous (e ∷ es) = end_previous (suc n) (some n) es

  Chain-append :
      (n : ℕ) (previous : Option ℕ) (es : List (AuthorityEvent Float))
      (bs : List (AuthoritySubtype Float)) (e : AuthorityEvent Float) (b : AuthoritySubtype Float)
      → Chain digest json n previous es bs
      → IsLinked digest json (n + length es) (end_previous n previous es) e b
      → Chain digest json n previous (es ++ e ∷ []) (bs ++ b ∷ [])
  Chain-append n previous [] [] e b h l =
      (subst (λ m. IsLinked digest json m previous e b) (omega arith) l, tt)
  Chain-append n previous [] (x ∷ bs) e b h l = absurd h
  Chain-append n previous (x ∷ es) [] e b h l = absurd h
  Chain-append n previous (x ∷ es) (y ∷ bs) e b h l = (
    h.0,
    Chain-append (suc n) (some n) es bs e b h.1 (
        subst (λ m. IsLinked digest json m (end_previous (suc n) (some n) es) e b) (omega arith) l),
  )

  -- The last row of a chain, read as `_append_authority` reads it.
  record Follows (n m : ℕ) (previous : Option ℕ) (es : List (AuthorityEvent Float)) : Type 0 where
    position : next_position (last es) ≡ m
    ordinal : next_ordinal (last es) ≡ m
    predecessor : previous_position (last es) ≡ end_previous n previous es

  Chain-Follows :
      (n : ℕ) (previous : Option ℕ) (e : AuthorityEvent Float) (es : List (AuthorityEvent Float))
      (bs : List (AuthoritySubtype Float))
      → 0 < n
      → Chain digest json n previous (e ∷ es) bs
      → Follows n (n + length (e ∷ es)) previous (e ∷ es)
  Chain-Follows n previous e es [] p h = absurd h
  Chain-Follows n previous e [] (b ∷ bs) p h = ground (arith, h.0.position, h.0.ordinal)
  Chain-Follows n previous e (x ∷ es) (b ∷ bs) p h =
      let ih = Chain-Follows (suc n) (some n) x es bs (omega arith) h.1 in
      record {
        position = omega (arith, ih.position);
        ordinal = omega (arith, ih.ordinal);
        predecessor = ih.predecessor;
      }

  store-Follows :
      (es : List (AuthorityEvent Float)) (bs : List (AuthoritySubtype Float))
      → Chain digest json 1 none es bs
      → Follows 1 (1 + length es) none es
  store-Follows [] bs h = record {
    position = omega arith;
    ordinal = omega arith;
    predecessor = refl;
  }
  store-Follows (e ∷ es) bs h = Chain-Follows 1 none e es bs (omega arith) h

  -- The last position of a chain is its length.
  pub last_position-Chain :
      (es : List (AuthorityEvent Float)) (bs : List (AuthoritySubtype Float))
      → Chain digest json 1 none es bs
      → last_position (last es) ≡ length es
  last_position-Chain es bs h = elim (Option-cases (last es)) [
    | inl e ↦ ground (arith, (store-Follows es bs h).position)
    | inr (x, e) ↦ ground (arith, (store-Follows es bs h).position)
  ]

  pub append_authority-IsChained :
      (kind : AuthorityMutationKind) (id : Uuid) (at : Instant) (payload : AuthorityPayload Float)
      (s : JournalStore Float)
      → IsChained digest json s
      → IsChained digest json (append_authority digest kind id at payload s)
  unfolding append_authority
  append_authority-IsChained kind id at payload s h =
      let f = store-Follows s.authority_events s.authority_event_subtypes h in
      Chain-append 1 none s.authority_events s.authority_event_subtypes _ _ h (record {
        position = f.position;
        epoch = refl;
        ordinal = f.ordinal;
        predecessor = f.predecessor;
        digested = refl;
        sub_position = f.position;
        sub_kind = refl;
        sub_id = refl;
        sub_digest = refl;
        sub_payload = refl;
      })
