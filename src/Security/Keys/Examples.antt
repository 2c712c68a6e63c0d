-- ===== src/Security/Keys/Examples.antt =====
-- A key rotated once, with tests of the registry and its theorems at concrete inputs.
use sentinel_edge.Prelude.{
  if◌then◌else◌, is_blank, ℕ, String, ◌≡◌, refl, Bool, true, false, none, some, [], ◌∷◌, str_eq, ok,
  err,
}
use sentinel_edge.Domain.Kinds.{Uuid}
use sentinel_edge.Security.Keys.{
  KeyPurpose, KeyLifecycleAction, Registry, Crypto, set_state, active_generations,
  insert_descending, descending, reactivation_refused,
}
use sentinel_edge.Security.Keys.Registration.{
  load, Transition, append_event, transition_locked, transition, Registration, record_of,
  validate_record, retire_all, register,
}
use sentinel_edge.Security.Keys.Verification.{
  Claim, insert_event, in_order, events, event_at, signing_allowed, later_compromise,
  verify_historical, verify_new, verify,
}
use sentinel_edge.Security.Keys.Acceptance.{IsBacked, verify-IsBacked}
use sentinel_edge.Security.Keys.Rotation.{register-sole}

-- An identity of its own for each reason.
abbrev uuid_of : String → Uuid
uuid_of s =
    if str_eq s "first"
    then 1
    else if str_eq s "second"
    then 2
    else if str_eq s "superseded"
    then 3
    else if str_eq s "leak"
    then 4
    else if str_eq s "retired"
    then 5
    else 6

-- Texts for the bytes; a signature is the text of its key.
abbrev plain : Crypto
plain = record {
  Bytes = String;
  byte_length = λ s. 32;
  b64encode = λ s. s;
  b64decode = λ s. some s;
  sha256 = λ s. s;
  ed25519_verify = λ key signature message. str_eq signature key;
  event_digest = λ f. f.reason;
  event_uuid = uuid_of;
}

abbrev registration : ℕ → String → String → ℕ → Registration plain
registration generation key reason at = record {
  identity_id = "gateway";
  generation = generation;
  purpose = KeyPurpose.audit_signing;
  public_key_raw = key;
  policy_version = "p1";
  actor = "operator";
  reason = reason;
  superseded = "superseded";
  active_from = at;
  active_until = none;
  registered_at = at;
}

abbrev registered : Registration plain → Registry → Registry
registered a g = elim (register plain a g) [ ok x ↦ x.1 | err e ↦ g ]

abbrev nothing : Registry
nothing = record { key_identities = []; key_lifecycle_events = [] }

abbrev one_key : Registry
one_key = registered (registration 1 "key one" "first" 100) nothing

abbrev two_keys : Registry
two_keys = registered (registration 2 "key two" "second" 200) one_key

second-registered :
    register plain (registration 2 "key two" "second" 200) one_key
    ≡ ok (record_of plain (registration 2 "key two" "second" 200), two_keys)
unfolding register validate_record append_event retire_all transition_locked load set_state
    active_generations descending insert_descending is_blank
second-registered = refl

register-sole_example :
    active_generations "gateway" KeyPurpose.audit_signing two_keys.key_identities ≡ 2 ∷ []
unfolding register validate_record append_event retire_all transition_locked load set_state
    active_generations descending insert_descending is_blank
register-sole_example =
    register-sole plain (registration 2 "key two" "second" 200)
      (record_of plain (registration 2 "key two" "second" 200)) one_key two_keys refl
      second-registered

abbrev claim : ℕ → String → ℕ → Bool → Claim String
claim generation signature observed_at historical = record {
  identity_id = "gateway";
  generation = generation;
  purpose = KeyPurpose.audit_signing;
  message = "checkpoint";
  signature_b64 = signature;
  observed_at = observed_at;
  accepted_at = 300;
  historical = historical;
  authority_position = some 5;
}

new-accepted : (verify plain (claim 2 "key two" 250 false) two_keys).accepted ≡ true
unfolding register validate_record append_event retire_all transition_locked load set_state
    active_generations descending insert_descending is_blank verify verify_new signing_allowed
    event_at events in_order insert_event
new-accepted = refl

verify-IsBacked_example : IsBacked plain (claim 2 "key two" 250 false) two_keys
verify-IsBacked_example = verify-IsBacked plain (claim 2 "key two" 250 false) two_keys new-accepted

retired_key_refused : (verify plain (claim 1 "key one" 150 false) two_keys).accepted ≡ false
unfolding register validate_record append_event retire_all transition_locked load set_state
    active_generations descending insert_descending is_blank verify verify_new signing_allowed
    event_at events in_order insert_event
retired_key_refused = refl

abbrev step : KeyLifecycleAction → String → ℕ → Transition
step action reason at = record {
  identity_id = "gateway";
  generation = 2;
  purpose = KeyPurpose.audit_signing;
  action = action;
  actor = "operator";
  reason = reason;
  policy_version = "p1";
  effective_at = at;
  compromise_floor_position = none;
}

abbrev moved_to : Transition → Registry → Registry
moved_to t g = elim (transition plain t g) [ ok x ↦ x | err e ↦ g ]

abbrev leaked : Registry
leaked = moved_to (step KeyLifecycleAction.confirm_compromise "leak" 400) two_keys

reactivation_is_refused :
    transition plain (step KeyLifecycleAction.activate "again" 600) leaked
    ≡ err reactivation_refused
unfolding register validate_record append_event retire_all transition_locked load set_state
    active_generations descending insert_descending is_blank transition
reactivation_is_refused = refl

-- By way of retirement a compromised generation is active again.
active_after_compromise :
    active_generations "gateway" KeyPurpose.audit_signing
      (moved_to
        (step KeyLifecycleAction.activate "again" 600)
        (moved_to (step KeyLifecycleAction.retire "retired" 500) leaked)).key_identities
    ≡ 2 ∷ []
unfolding register validate_record append_event retire_all transition_locked load set_state
    active_generations descending insert_descending is_blank transition
active_after_compromise = refl

-- A past signature that was observed after the confirmed compromise is accepted.
accepted_after_compromise : (verify plain (claim 2 "key two" 450 true) leaked).accepted ≡ true
unfolding register validate_record append_event retire_all transition_locked load set_state
    active_generations descending insert_descending is_blank transition verify verify_historical
    later_compromise event_at events in_order insert_event
accepted_after_compromise = refl
