-- ===== src/Security/Keys/Registration.antt =====
-- Registration and transitions of src/sentinel_edge/security/key_lifecycle.py.
use sentinel_edge.Prelude.{
  ltb, leb, ◌==◌, if◌then◌else◌, is_some, first, any, Result, is_blank, ℕ, String, Bool, true,
  false, not, ◌&&◌, ◌||◌, Option, none, some, List, [], ◌∷◌, ◌++◌, str_eq, ok, err,
}
use sentinel_edge.Domain.Kinds.{Instant}
use sentinel_edge.Security.Keys.{
  KeyPurpose, KeyLifecycleAction, KeyState, KeyIdentityRecord, EventFields, KeyLifecycleEvent,
  Registry, KeyError, Crypto, action_to_state, is_compromised, is_activating, is_compromise, is_row,
  set_state, active_generations, descending, maximum, same_registration, same_purpose, same_action,
  invalid_public_key, invalid_record, invalid_event, key_identity_conflict, generation_not_greater,
  governance_blank, not_registered, reactivation_refused, floor_not_allowed,
}

-- `_load`: the stored payload with the current state.
unfoldable pub load : String → ℕ → KeyPurpose → Registry → Option KeyIdentityRecord
load id generation purpose g = elim (first (is_row id generation purpose) g.key_identities) [
  | none ↦ none
  | some r ↦ some (record (r.payload) { state = r.current_state })
]

-- The arguments of `transition`, with the time at which it takes effect.
pub record Transition : Type 0 where
  pub identity_id : String
  pub generation : ℕ
  pub purpose : KeyPurpose
  pub action : KeyLifecycleAction
  pub actor : String
  pub reason : String
  pub policy_version : String
  pub effective_at : Instant
  pub compromise_floor_position : Option ℕ

abbrev floor_is_zero : Option ℕ → Bool
floor_is_zero none = false
floor_is_zero (some n) = n == 0

-- The primary key and the unique constraint of `key_lifecycle_events`.
abbrev pub collides : KeyLifecycleEvent → KeyLifecycleEvent → Bool
collides a b =
    a.event_id == b.event_id
    || (str_eq a.fields.identity_id b.fields.identity_id
        && a.fields.generation == b.fields.generation
        && same_purpose a.fields.purpose b.fields.purpose
        && a.fields.effective_at == b.fields.effective_at
        && same_action a.fields.action b.fields.action)

module _ (cr : Crypto) where
  open cr use {Bytes, byte_length, b64encode, b64decode, sha256, event_digest, event_uuid}

  abbrev pub event_of : EventFields → KeyLifecycleEvent
  event_of f = record {
    event_id = event_uuid (event_digest f);
    fields = f;
    payload_sha256 = event_digest f;
  }

  -- `_append_event`; an event that collides is ignored.
  unfoldable pub append_event : EventFields → Registry → Result KeyError Registry
  append_event f g =
      if is_blank f.actor || is_blank f.reason || is_blank f.policy_version
      then err governance_blank
      else if f.generation == 0 || floor_is_zero f.compromise_floor_position
      then err invalid_event
      else if any (collides (event_of f)) g.key_lifecycle_events
      then ok g
      else ok (record g { key_lifecycle_events = g.key_lifecycle_events ++ event_of f ∷ [] })

  abbrev pub fields_of : Transition → KeyState → EventFields
  fields_of t from_state = record {
    identity_id = t.identity_id;
    generation = t.generation;
    purpose = t.purpose;
    action = t.action;
    from_state = some from_state;
    to_state = action_to_state t.action;
    effective_at = t.effective_at;
    actor = t.actor;
    reason = t.reason;
    policy_version = t.policy_version;
    compromise_floor_position = t.compromise_floor_position;
  }

  abbrev pub moved : Transition → Registry → Registry
  moved t g = record g {
    key_identities =
        set_state t.identity_id t.generation t.purpose (action_to_state t.action) g.key_identities;
  }

  -- `_transition_locked`
  unfoldable pub transition_locked : Transition → Registry → Result KeyError Registry
  transition_locked t g = elim (load t.identity_id t.generation t.purpose g) [
    | none ↦ err not_registered
    | some current ↦
        if is_activating t.action && is_compromised current.state
        then err reactivation_refused
        else elim (append_event (fields_of t current.state) g) [
          | err x ↦ err x
          | ok g' ↦ ok (moved t g')
        ]
  ]

  unfoldable pub transition : Transition → Registry → Result KeyError Registry
  transition t g =
      if not (is_compromise t.action) && is_some t.compromise_floor_position
      then err floor_not_allowed
      else transition_locked t g

  -- The arguments of `register`, with its time and the defaults filled in. `superseded` is the
  -- text `superseded_by_generation_{generation}`.
  pub record Registration : Type 0 where
    pub identity_id : String
    pub generation : ℕ
    pub purpose : KeyPurpose
    pub public_key_raw : Bytes
    pub policy_version : String
    pub actor : String
    pub reason : String
    pub superseded : String
    pub active_from : Instant
    pub active_until : Option Instant
    pub registered_at : Instant

  abbrev pub record_of : Registration → KeyIdentityRecord
  record_of a = record {
    identity_id = a.identity_id;
    generation = a.generation;
    purpose = a.purpose;
    public_key_b64 = b64encode a.public_key_raw;
    public_key_sha256 = sha256 a.public_key_raw;
    policy_version = a.policy_version;
    active_from = a.active_from;
    active_until = a.active_until;
    state = KeyState.active;
    registered_at = a.registered_at;
  }

  -- `KeyIdentityRecord.not_blank` and `validate_record`
  unfoldable pub validate_record : KeyIdentityRecord → Bool
  validate_record r =
      not (is_blank r.identity_id || is_blank r.policy_version || r.generation == 0)
      && elim (b64decode r.public_key_b64) [
        | none ↦ false
        | some raw ↦ byte_length raw == 32 && str_eq (sha256 raw) r.public_key_sha256
      ]
      && elim r.active_until [ none ↦ true | some until ↦ ltb r.active_from until ]

  abbrev pub first_fields : Registration → Bool → EventFields
  first_fields a rotates = record {
    identity_id = a.identity_id;
    generation = a.generation;
    purpose = a.purpose;
    action = if rotates then KeyLifecycleAction.rotate else KeyLifecycleAction.activate;
    from_state = none;
    to_state = KeyState.active;
    effective_at = a.active_from;
    actor = a.actor;
    reason = a.reason;
    policy_version = a.policy_version;
    compromise_floor_position = none;
  }

  abbrev pub retirement : Registration → ℕ → Transition
  retirement a generation = record {
    identity_id = a.identity_id;
    generation = generation;
    purpose = a.purpose;
    action = KeyLifecycleAction.retire;
    actor = a.actor;
    reason = a.superseded;
    policy_version = a.policy_version;
    effective_at = a.active_from;
    compromise_floor_position = none;
  }

  -- The loop over the earlier active generations.
  unfoldable pub retire_all : Registration → List ℕ → Registry → Result KeyError Registry
  retire_all a [] g = ok g
  retire_all a (n ∷ ns) g = elim (transition_locked (retirement a n) g) [
    | err x ↦ err x
    | ok g' ↦ retire_all a ns g'
  ]

  abbrev pub is_nonempty : List ℕ → Bool
  is_nonempty [] = false
  is_nonempty _ = true

  abbrev pub with_row : Registration → Registry → Registry
  with_row a g = record g {
    key_identities =
        g.key_identities ++ record { payload = record_of a; current_state = KeyState.active } ∷ [];
  }

  unfoldable pub register : Registration → Registry → Result KeyError (KeyIdentityRecord × Registry)
  register a g =
      let prior_active = descending (active_generations a.identity_id a.purpose g.key_identities) in
      if not (byte_length a.public_key_raw == 32)
      then err invalid_public_key
      else if not (validate_record (record_of a))
      then err invalid_record
      else elim (first (is_row a.identity_id a.generation a.purpose) g.key_identities) [
        | some r ↦
            if same_registration r.payload (record_of a)
            then ok (r.payload, g)
            else err key_identity_conflict
        | none ↦
            if is_nonempty prior_active && leb a.generation (maximum prior_active)
            then err generation_not_greater
            else elim (append_event (first_fields a (is_nonempty prior_active)) (with_row a g)) [
              | err x ↦ err x
              | ok g' ↦ elim (retire_all a prior_active g') [
                | err x ↦ err x
                | ok g'' ↦ ok (record_of a, g'')
              ]
            ]
      ]
