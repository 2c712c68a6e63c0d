-- ===== src/Security/Keys/Verification.antt =====
-- What a key may sign and which signatures count (src/sentinel_edge/security/key_lifecycle.py).
use sentinel_edge.Prelude.{
  ltb, leb, ◌==◌, if◌then◌else◌, keep, first, last, Result, ℕ, String, Bool, true, false, not, ◌&&◌,
  ◌||◌, Option, none, some, List, [], ◌∷◌, str_eq, ok, err,
}
use sentinel_edge.Domain.Kinds.{Instant}
use sentinel_edge.Security.Keys.{
  KeyPurpose, KeyState, KeyIdentityRecord, KeyLifecycleEvent, Registry, Crypto, is_active,
  is_compromise, same_purpose,
}
use sentinel_edge.Security.Keys.Registration.{load}

abbrev pub is_event : String → ℕ → KeyPurpose → KeyLifecycleEvent → Bool
is_event id generation purpose e =
    str_eq e.fields.identity_id id
    && e.fields.generation == generation
    && same_purpose e.fields.purpose purpose

abbrev earlier : KeyLifecycleEvent → KeyLifecycleEvent → Bool
earlier a b =
    ltb a.fields.effective_at b.fields.effective_at
    || (a.fields.effective_at == b.fields.effective_at && leb a.event_id b.event_id)

unfoldable pub insert_event : KeyLifecycleEvent → List KeyLifecycleEvent → List KeyLifecycleEvent
insert_event e [] = e ∷ []
insert_event e (f ∷ es) =
    let rest = insert_event e es in if earlier e f then e ∷ f ∷ es else f ∷ rest

-- `ORDER BY effective_at,event_id`
unfoldable pub in_order : List KeyLifecycleEvent → List KeyLifecycleEvent
in_order [] = []
in_order (e ∷ es) = insert_event e (in_order es)

-- `events` of one generation.
unfoldable pub events : String → ℕ → KeyPurpose → Registry → List KeyLifecycleEvent
events id generation purpose g =
    in_order (keep (is_event id generation purpose) g.key_lifecycle_events)

-- `_state_at`: the last event until then.
unfoldable pub event_at : String → ℕ → KeyPurpose → Instant → Registry → Option KeyLifecycleEvent
event_at id generation purpose observed_at g = last (
    keep (λ (e : KeyLifecycleEvent). leb e.fields.effective_at observed_at)
      (events id generation purpose g))

abbrev pub in_window : KeyIdentityRecord → Instant → Bool
in_window r at =
    leb r.active_from at && elim r.active_until [ none ↦ true | some until ↦ ltb at until ]

abbrev pub active_at : Option KeyLifecycleEvent → Bool
active_at none = false
active_at (some e) = is_active e.fields.to_state

pub data SigningError : Type 0 where
  unknown_key not_active outside_window : SigningError

unfoldable pub signing_allowed :
    String → ℕ → KeyPurpose → Instant → Registry → Result SigningError KeyIdentityRecord
signing_allowed id generation purpose at g = elim (load id generation purpose g) [
  | none ↦ err unknown_key
  | some r ↦
      if not (active_at (event_at id generation purpose at g) && is_active r.state)
      then err not_active
      else if not (in_window r at)
      then err outside_window
      else ok r
]

pub record SignatureVerification : Type 0 where
  pub accepted : Bool
  pub status : String
  pub policy_version : Option String
  pub key_state_at_observation : Option KeyState
  pub current_key_state : Option KeyState
  pub reason_codes : List String

-- The first later event that tells of a compromise.
unfoldable pub later_compromise :
    String → ℕ → KeyPurpose → Instant → Registry → Option KeyLifecycleEvent
later_compromise id generation purpose observed_at g =
    first (λ (e : KeyLifecycleEvent). is_compromise e.fields.action)
      (keep (λ (e : KeyLifecycleEvent). ltb observed_at e.fields.effective_at)
        (events id generation purpose g))

abbrev pub precedes : Option ℕ → ℕ → Bool
precedes none floor = false
precedes (some position) floor = ltb position floor

abbrev historical_status : KeyState → String
historical_status KeyState.retired = "historically_valid_retired"
historical_status KeyState.revoked_policy = "historically_valid_before_policy_revocation"
historical_status _ = "valid_active"

-- The arguments of `verify`, with the time of acceptance. The signature is its base64 text.
pub record Claim (Bytes : Type 0) : Type 0 where
  pub identity_id : String
  pub generation : ℕ
  pub purpose : KeyPurpose
  pub message : Bytes
  pub signature_b64 : String
  pub observed_at : Instant
  pub accepted_at : Instant
  pub historical : Bool
  pub authority_position : Option ℕ

module _ (cr : Crypto) where
  open cr use {Bytes, b64decode, ed25519_verify}

  abbrev pub signature_valid : KeyIdentityRecord → Claim Bytes → Bool
  signature_valid r c = elim (b64decode c.signature_b64) [
    | none ↦ false
    | some signature ↦ elim (b64decode r.public_key_b64) [
      | none ↦ false
      | some key ↦ ed25519_verify key signature c.message
    ]
  ]

  abbrev answer :
      KeyIdentityRecord
      → KeyLifecycleEvent
      → (policy_version : String) → Bool
      → (status : String) → List String
      → SignatureVerification
  answer r e policy_version accepted status reasons = record {
    accepted = accepted;
    status = status;
    policy_version = some policy_version;
    key_state_at_observation = some e.fields.to_state;
    current_key_state = some r.state;
    reason_codes = reasons;
  }

  -- The answer on a past signature, given the event that was in force.
  unfoldable pub verify_historical :
      Claim Bytes → KeyIdentityRecord → KeyLifecycleEvent → Registry → SignatureVerification
  verify_historical c r e g =
      elim (later_compromise c.identity_id c.generation c.purpose c.observed_at g) [
        | none ↦ answer r e e.fields.policy_version true (historical_status r.state) []
        | some compromise ↦ elim compromise.fields.compromise_floor_position [
          | none ↦
              answer r e e.fields.policy_version false "indeterminate_compromise_interval"
                ("compromise_start_unknown" ∷ [])
          | some floor ↦
              if precedes c.authority_position floor
              then answer r e e.fields.policy_version true "valid_before_compromise_floor"
                  ("checkpoint_precedes_known_compromise_floor" ∷ [])
              else answer r e e.fields.policy_version false "not_validated_after_compromise_floor"
                  ("checkpoint_at_or_after_compromise_floor" ∷ [])
        ]
      ]

  unfoldable pub verify_new :
      Claim Bytes → KeyIdentityRecord → KeyLifecycleEvent → Registry → SignatureVerification
  verify_new c r e g = elim (signing_allowed c.identity_id c.generation c.purpose c.accepted_at g) [
    | ok _ ↦ answer r e r.policy_version true "valid_active" []
    | err _ ↦
        answer r e r.policy_version false "key_not_accepted_for_new_evidence"
          ("current_key_lifecycle_blocks_new_acceptance" ∷ [])
  ]

  abbrev refusal : String → Option KeyIdentityRecord → String → SignatureVerification
  refusal status r reason = record {
    accepted = false;
    status = status;
    policy_version = elim r [ none ↦ none | some k ↦ some k.policy_version ];
    key_state_at_observation = none;
    current_key_state = elim r [ none ↦ none | some k ↦ some k.state ];
    reason_codes = reason ∷ [];
  }

  unfoldable pub verify : Claim Bytes → Registry → SignatureVerification
  verify c g = elim (load c.identity_id c.generation c.purpose g) [
    | none ↦ refusal "unknown_signer" none "identity_generation_not_registered"
    | some r ↦
        if not (signature_valid r c)
        then refusal "invalid_signature" (some r) "ed25519_verification_failed"
        else elim (event_at c.identity_id c.generation c.purpose c.observed_at g) [
          | none ↦
              refusal "outside_key_validity" (some r) "signature_time_not_covered_by_key_generation"
          | some e ↦
              if not (in_window r c.observed_at)
              then refusal "outside_key_validity" (some r)
                  "signature_time_not_covered_by_key_generation"
              else if c.historical
              then verify_historical c r e g
              else verify_new c r e g
        ]
  ]
