-- ===== src/Storage/Journal/Chain/Valid.antt =====
-- A chained journal conforms.
use sentinel_edge.Prelude.{
  ◌==◌, length, any, All, ℕ, suc, ◌+◌, ◌<◌, String, ◌≡◌, refl, ◌∙◌, Bool, true, Option, none, some,
  List, [], ◌∷◌, ◌++◌, arith, eq_iff,
}
use native.Mathlib.Numerals.{add-one}
use mathlib.Core.List.{append_assoc}
use sentinel_edge.Storage.Journal.{AuthorityPayload, AuthorityEvent, AuthoritySubtype, JournalStore}
use sentinel_edge.Storage.Journal.Chain.Append.{last_position-Chain}
use sentinel_edge.Storage.Journal.Chain.{
  IsLinked, orphans, authority_conformance, row_failures, Chain, IsChained, subtype_of,
}

module _ {Float : Type 0} (digest json : AuthorityPayload Float → String) where
  abbrev Below : ℕ → List (AuthoritySubtype Float) → Type 0
  Below n pre = All (λ b. b.authority_position < n) pre

  subtype_of-append :
      (n : ℕ) (pre bs : List (AuthoritySubtype Float)) (b : AuthoritySubtype Float)
      → Below n pre
      → b.authority_position ≡ n
      → subtype_of n (pre ++ b ∷ bs) ≡ some b
  subtype_of-append n [] bs b p h = ground arith
  subtype_of-append n (x ∷ pre) bs b p h = ground (arith, subtype_of-append n pre bs b p.1 h)

  Below-append :
      (n : ℕ) (pre : List (AuthoritySubtype Float)) (b : AuthoritySubtype Float)
      → Below n pre
      → b.authority_position ≡ n
      → Below (suc n) (pre ++ b ∷ [])
  Below-append n [] b p h = (omega arith, tt)
  Below-append n (x ∷ pre) b p h = (omega arith, Below-append n pre b p.1 h)

  -- A linked row adds no failure.
  row_failures-linked :
      (subs : List (AuthoritySubtype Float)) (n : ℕ) (previous : Option ℕ)
      (e : AuthorityEvent Float) (es : List (AuthorityEvent Float)) (b : AuthoritySubtype Float)
      → IsLinked digest json n previous e b
      → subtype_of n subs ≡ some b
      → row_failures digest json subs n previous (e ∷ es)
        ≡ row_failures digest json subs (n + 1) (some n) es
  unfolding row_failures
  row_failures-linked subs n previous e es b l h = ground (
    arith,
    eq_iff e.epoch_id "authority-epoch-1",
    eq_iff e.payload_sha256 (digest e.payload),
    eq_iff b.payload_sha256 (digest e.payload),
    eq_iff (json b.payload) (json e.payload),
  )

  row_failures-Chain :
      (n : ℕ) (previous : Option ℕ) (es : List (AuthorityEvent Float))
      (pre bs : List (AuthoritySubtype Float))
      → Below n pre
      → Chain digest json n previous es bs
      → row_failures digest json (pre ++ bs) n previous es ≡ []
  row_failures-Chain n previous [] pre bs p h = unfold row_failures in refl
  row_failures-Chain n previous (e ∷ es) pre [] p h = absurd h
  row_failures-Chain n previous (e ∷ es) pre (b ∷ bs) p h =
      row_failures-linked (pre ++ b ∷ bs) n previous e es b h.0
        (subtype_of-append n pre bs b p h.0.sub_position)
      ∙ rw add-one (
          rw (← append_assoc pre (b ∷ []) bs) (
            row_failures-Chain (suc n) (some n) es (pre ++ b ∷ []) bs
              (Below-append n pre b p h.0.sub_position) h.1))

  abbrev has_event : List (AuthorityEvent Float) → AuthoritySubtype Float → Bool
  has_event es b = any (λ e. e.position == b.authority_position) es

  orphans-Chain :
      (n : ℕ) (previous : Option ℕ) (all es : List (AuthorityEvent Float))
      (bs : List (AuthoritySubtype Float))
      → ((b : AuthoritySubtype Float) → has_event es b ≡ true → has_event all b ≡ true)
      → Chain digest json n previous es bs
      → orphans digest json all bs ≡ []
  unfolding orphans
  orphans-Chain n previous all es [] f h = refl
  orphans-Chain n previous all [] (b ∷ bs) f h = absurd h
  orphans-Chain n previous all (e ∷ es) (b ∷ bs) f h = ground (
    arith,
    f b,
    h.0.position,
    h.0.sub_position,
    orphans-Chain (suc n) (some n) all es bs (λ c k. f c (ground (arith, k))) h.1,
  )

  pub authority_conformance-valid :
      (s : JournalStore Float)
      → IsChained digest json s
      → authority_conformance digest json s ≡ record {
        valid = true;
        epoch_id = "authority-epoch-1";
        event_count = length s.authority_events;
        highest_contiguous_position = length s.authority_events;
        failures = [];
      }
  unfolding authority_conformance
  authority_conformance-valid s h = ground (
    arith,
    row_failures-Chain 1 none s.authority_events [] s.authority_event_subtypes tt h,
    orphans-Chain 1 none s.authority_events s.authority_events s.authority_event_subtypes (λ b k. k)
        h,
    last_position-Chain digest json s.authority_events s.authority_event_subtypes h,
  )
