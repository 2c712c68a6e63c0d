-- ===== src/Security/Keys/Acceptance.antt =====
-- What an accepted signature rests on (src/sentinel_edge/security/key_lifecycle.py).
use sentinel_edge.Prelude.{
  Bool-cases, Option-cases, Result-cases, ℕ, String, ◌≡◌, subst, ◌⊎◌, inl, inr, true, false, none,
  some, arith, ok,
}
use sentinel_edge.Domain.Kinds.{Instant}
use sentinel_edge.Security.Keys.{
  KeyPurpose, KeyIdentityRecord, KeyLifecycleEvent, Registry, Crypto, is_active,
}
use sentinel_edge.Security.Keys.Registration.{load}
use sentinel_edge.Security.Keys.Verification.{
  Claim, event_at, in_window, active_at, signing_allowed, later_compromise, signature_valid,
  verify_historical, verify_new, verify, precedes,
}

signing_allowed-ok :
    (id : String) (generation : ℕ) (purpose : KeyPurpose) (at : Instant) (g : Registry)
    (r : KeyIdentityRecord)
    → signing_allowed id generation purpose at g ≡ ok r
    → (load id generation purpose g ≡ some r)
      × (is_active r.state ≡ true)
      × (active_at (event_at id generation purpose at g) ≡ true)
      × (in_window r at ≡ true)
unfolding signing_allowed
signing_allowed-ok id generation purpose at g r h =
    elim (Option-cases (load id generation purpose g)) [
      | inl k ↦ absurd ground arith
      | inr (q, k) ↦ ground arith
    ]

module _ (cr : Crypto) where
  open cr use {Bytes}

  -- A signature is new, and its key may sign at the time of acceptance.
  pub record IsCurrent (c : Claim Bytes) (g : Registry) (r : KeyIdentityRecord) : Type 0 where
    pub active_now : is_active r.state ≡ true
    pub active_then :
        active_at (event_at c.identity_id c.generation c.purpose c.accepted_at g) ≡ true
    pub covered : in_window r c.accepted_at ≡ true

  -- No later compromise is known, or the claim's position lies before the floor of the first one.
  abbrev pub IsUncompromised : Claim Bytes → Registry → Type 0
  IsUncompromised c g =
      (later_compromise c.identity_id c.generation c.purpose c.observed_at g ≡ none)
      ⊎ ((e : KeyLifecycleEvent) × (floor : ℕ) × (later_compromise c.identity_id c.generation
              c.purpose c.observed_at g
            ≡ some e)
          × (e.fields.compromise_floor_position ≡ some floor)
          × (precedes c.authority_position floor ≡ true))

  pub record IsBacked (c : Claim Bytes) (g : Registry) : Type 0 where
    pub key : KeyIdentityRecord
    pub registered : load c.identity_id c.generation c.purpose g ≡ some key
    pub signed : signature_valid cr key c ≡ true
    pub covered : in_window key c.observed_at ≡ true
    pub basis :
        (c.historical ≡ true × IsUncompromised c g) ⊎ (c.historical ≡ false × IsCurrent c g key)

  verify_historical-accepted :
      (c : Claim Bytes) (r : KeyIdentityRecord) (e : KeyLifecycleEvent) (g : Registry)
      → (verify_historical cr c r e g).accepted ≡ true
      → IsUncompromised c g
  unfolding verify_historical
  verify_historical-accepted c r e g h =
      elim (Option-cases (later_compromise c.identity_id c.generation c.purpose c.observed_at g)) [
        | inl k ↦ inl k
        | inr (f, k) ↦ elim (Option-cases f.fields.compromise_floor_position) [
          | inl m ↦ absurd ground arith
          | inr (floor, m) ↦ inr (f, floor, k, m, ground arith)
        ]
      ]

  verify_new-accepted :
      (c : Claim Bytes) (r : KeyIdentityRecord) (e : KeyLifecycleEvent) (g : Registry)
      → load c.identity_id c.generation c.purpose g ≡ some r
      → (verify_new cr c r e g).accepted ≡ true
      → IsCurrent c g r
  unfolding verify_new
  verify_new-accepted c r e g l h =
      elim (Result-cases (signing_allowed c.identity_id c.generation c.purpose c.accepted_at g)) [
        | inl (q, k) ↦
            let (found, now, then_, window) =
              signing_allowed-ok c.identity_id c.generation c.purpose c.accepted_at g q k in
            let same : q ≡ r = ground (arith, found, l) in
            record {
              active_now = subst (λ (x : KeyIdentityRecord). is_active x.state ≡ true) same now;
              active_then = then_;
              covered =
                  subst (λ (x : KeyIdentityRecord). in_window x c.accepted_at ≡ true) same window;
            }
        | inr (x, k) ↦ absurd ground arith
      ]

  -- A signature is accepted only if its key is registered, the key's signature is valid and the
  -- time of observation lies in the key's validity. A claim that is not historical needs further that
  -- the key is active, now and in the event in force at acceptance, and that acceptance lies in its
  -- validity; a historical one needs that no later compromise is known, or that its authority position lies
  -- before the floor of the first one.
  pub verify-IsBacked :
      (c : Claim Bytes) (g : Registry) → (verify cr c g).accepted ≡ true → IsBacked c g
  unfolding verify
  verify-IsBacked c g h = elim (Option-cases (load c.identity_id c.generation c.purpose g)) [
    | inl k ↦ absurd ground arith
    | inr (r, k) ↦
        elim (Option-cases (event_at c.identity_id c.generation c.purpose c.observed_at g)) [
          | inl m ↦ absurd ground arith
          | inr (e, m) ↦ elim (Bool-cases c.historical) [
            | inl p ↦ record {
              key = r;
              registered = k;
              signed = ground arith;
              covered = ground arith;
              basis = inl (p, verify_historical-accepted c r e g ground arith);
            }
            | inr p ↦ record {
              key = r;
              registered = k;
              signed = ground arith;
              covered = ground arith;
              basis = inr (p, verify_new-accepted c r e g k ground arith);
            }
          ]
        ]
  ]
