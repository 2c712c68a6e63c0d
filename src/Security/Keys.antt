-- ===== src/Security/Keys.antt =====
-- `KeyLifecycleRegistry` of src/sentinel_edge/security/key_lifecycle.py: its records, tables and
-- changes. The tables are lists of rows; a call that raises inside its transaction changes nothing.
-- Time stamps are in UTC, so that their texts have the order of the instants.
pub mod Registration
pub mod Verification
pub mod Acceptance
pub mod Generations
pub mod Rotation
pub mod Examples
use Prim.Native.Nat.{max}
use sentinel_edge.Prelude.{
  leb, ◌==◌, if◌then◌else◌, nat_eq, ℕ, String, Bool, true, false, ◌&&◌, Option, none, some, List,
  [], ◌∷◌, str_eq,
}
use sentinel_edge.Domain.Kinds.{Uuid, Instant}

pub data KeyPurpose : Type 0 where
  audit_signing source_signing device_identity update_signing : KeyPurpose

pub data KeyLifecycleAction : Type 0 where
  activate rotate retire revoke_policy suspect_compromise confirm_compromise : KeyLifecycleAction

pub data KeyState : Type 0 where
  active retired revoked_policy suspected_compromise compromised : KeyState

-- `_ACTION_TO_STATE`
abbrev pub action_to_state : KeyLifecycleAction → KeyState
action_to_state KeyLifecycleAction.activate = KeyState.active
action_to_state KeyLifecycleAction.rotate = KeyState.active
action_to_state KeyLifecycleAction.retire = KeyState.retired
action_to_state KeyLifecycleAction.revoke_policy = KeyState.revoked_policy
action_to_state KeyLifecycleAction.suspect_compromise = KeyState.suspected_compromise
action_to_state KeyLifecycleAction.confirm_compromise = KeyState.compromised

abbrev purpose_index : KeyPurpose → ℕ
purpose_index audit_signing = 0
purpose_index source_signing = 1
purpose_index device_identity = 2
purpose_index update_signing = 3

abbrev pub same_purpose : KeyPurpose → KeyPurpose → Bool
same_purpose a b = purpose_index a == purpose_index b

abbrev action_index : KeyLifecycleAction → ℕ
action_index KeyLifecycleAction.activate = 0
action_index KeyLifecycleAction.rotate = 1
action_index KeyLifecycleAction.retire = 2
action_index KeyLifecycleAction.revoke_policy = 3
action_index KeyLifecycleAction.suspect_compromise = 4
action_index KeyLifecycleAction.confirm_compromise = 5

abbrev pub same_action : KeyLifecycleAction → KeyLifecycleAction → Bool
same_action a b = action_index a == action_index b

abbrev pub is_active : KeyState → Bool
is_active KeyState.active = true
is_active _ = false

abbrev pub is_compromised : KeyState → Bool
is_compromised KeyState.compromised = true
is_compromised _ = false

abbrev pub is_activating : KeyLifecycleAction → Bool
is_activating KeyLifecycleAction.activate = true
is_activating KeyLifecycleAction.rotate = true
is_activating _ = false

abbrev pub is_compromise : KeyLifecycleAction → Bool
is_compromise KeyLifecycleAction.suspect_compromise = true
is_compromise KeyLifecycleAction.confirm_compromise = true
is_compromise _ = false

pub record KeyIdentityRecord : Type 0 where
  pub identity_id : String
  pub generation : ℕ
  pub purpose : KeyPurpose
  pub public_key_b64 : String
  pub public_key_sha256 : String
  pub policy_version : String
  pub active_from : Instant
  pub active_until : Option Instant
  pub state : KeyState
  pub registered_at : Instant

-- What an event's digest is taken of.
pub record EventFields : Type 0 where
  pub identity_id : String
  pub generation : ℕ
  pub purpose : KeyPurpose
  pub action : KeyLifecycleAction
  pub from_state : Option KeyState
  pub to_state : KeyState
  pub effective_at : Instant
  pub actor : String
  pub reason : String
  pub policy_version : String
  pub compromise_floor_position : Option ℕ

pub record KeyLifecycleEvent : Type 0 where
  pub event_id : Uuid
  pub fields : EventFields
  pub payload_sha256 : String

-- A row of `key_identities`: the payload as registered, and the current state.
pub record KeyRow : Type 0 where
  pub payload : KeyIdentityRecord
  pub current_state : KeyState

pub record Registry : Type 0 where
  pub key_identities : List KeyRow
  pub key_lifecycle_events : List KeyLifecycleEvent

pub data KeyError : Type 0 where
  invalid_public_key invalid_record invalid_event key_identity_conflict : KeyError
  generation_not_greater governance_blank not_registered reactivation_refused : KeyError
  floor_not_allowed : KeyError

-- Base64, SHA-256, Ed25519 and the digest and the name-based UUID of an event.
pub record Crypto : Type 1 where
  pub Bytes : Type 0
  pub byte_length : Bytes → ℕ
  pub b64encode : Bytes → String
  pub b64decode : String → Option Bytes
  pub sha256 : Bytes → String
  -- The key, the signature and the message.
  pub ed25519_verify : Bytes → Bytes → Bytes → Bool
  pub event_digest : EventFields → String
  pub event_uuid : String → Uuid

abbrev pub is_row : String → ℕ → KeyPurpose → KeyRow → Bool
is_row id generation purpose r =
    str_eq r.payload.identity_id id
    && r.payload.generation == generation
    && same_purpose r.payload.purpose purpose

-- The state column of the rows with a key.
unfoldable pub set_state : String → ℕ → KeyPurpose → KeyState → List KeyRow → List KeyRow
set_state id generation purpose state [] = []
set_state id generation purpose state (r ∷ rows) =
    (if is_row id generation purpose r then record r { current_state = state } else r)
    ∷ set_state id generation purpose state rows

-- The active generations of an identity for a purpose, in the table's order.
unfoldable pub active_generations : String → KeyPurpose → List KeyRow → List ℕ
active_generations id purpose [] = []
active_generations id purpose (r ∷ rows) =
    let rest = active_generations id purpose rows in
    if str_eq r.payload.identity_id id
      && same_purpose r.payload.purpose purpose
      && is_active r.current_state
    then r.payload.generation ∷ rest
    else rest

unfoldable pub insert_descending : ℕ → List ℕ → List ℕ
insert_descending n [] = n ∷ []
insert_descending n (m ∷ ns) =
    let rest = insert_descending n ns in if leb m n then n ∷ m ∷ ns else m ∷ rest

-- `ORDER BY generation DESC`
unfoldable pub descending : List ℕ → List ℕ
descending [] = []
descending (n ∷ ns) = insert_descending n (descending ns)

abbrev pub maximum : List ℕ → ℕ
maximum [] = 0
maximum (n ∷ ns) = max n (maximum ns)

abbrev same_instant : Option Instant → Option Instant → Bool
same_instant none none = true
same_instant (some a) (some b) = a == b
same_instant _ _ = false

-- Whether a registration repeats a stored payload; both have the state active.
abbrev pub same_registration : KeyIdentityRecord → KeyIdentityRecord → Bool
same_registration a b =
    str_eq a.identity_id b.identity_id
    && a.generation == b.generation
    && same_purpose a.purpose b.purpose
    && str_eq a.public_key_b64 b.public_key_b64
    && str_eq a.public_key_sha256 b.public_key_sha256
    && str_eq a.policy_version b.policy_version
    && a.active_from == b.active_from
    && same_instant a.active_until b.active_until
    && is_active a.state
    && is_active b.state
    && a.registered_at == b.registered_at
