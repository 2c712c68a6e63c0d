-- ===== src/Security/Authorization.antt =====
-- `CommandAuthorizer` of src/sentinel_edge/security/auth.py.
pub mod Decisions
use sentinel_edge.Prelude.{
  ltb, leb, if◌then◌else◌, Result, is_blank, nat_eq, ℕ, ◌+◌, ◌*◌, String, Bool, false, not, ◌&&◌,
  ◌||◌, Option, none, some, str_eq, ok, err,
}
use sentinel_edge.Domain.Kinds.{Uuid, Instant}
use sentinel_edge.Security.Principals.{PrincipalRef, same_principal}

pub record AuthorizationDecision : Type 0 where
  pub decision_id : Uuid
  pub principal : PrincipalRef
  pub operation : String
  pub target : String
  pub payload_sha256 : String
  pub policy_version : String
  pub canonical_encoding_version : String
  pub accepted_at : Instant
  pub expires_at : Instant
  pub authorization_tag : String

-- The dictionary of `_tag_payload`.
pub record TagPayload : Type 0 where
  pub principal : PrincipalRef
  pub operation : String
  pub target : String
  pub payload_sha256 : String
  pub policy_version : String
  pub canonical_encoding_version : String
  pub accepted_at : Instant
  pub expires_at : Instant

-- The dictionary of `scoped_idempotency_key`.
pub record ScopedKey : Type 0 where
  pub principal_id : String
  pub session_epoch : ℕ
  pub device_trust_epoch : ℕ
  pub canonical_encoding_version : String
  pub operation : String
  pub target : String
  pub client_key : String

pub data AuthorizationError : Type 0 where
  secret_too_short invalid_decision decision_expired encoding_version_mismatch : AuthorizationError
  operation_or_target_mismatch payload_mismatch principal_changed tag_invalid : AuthorizationError

-- HMAC-SHA-256 and SHA-256 over canonical JSON.
pub record Macs : Type 1 where
  pub Secret : Type 0
  pub secret_length : Secret → ℕ
  pub hmac : Secret → TagPayload → String
  pub key_digest : ScopedKey → String

abbrev pub encoding_version : String
encoding_version = "sentinel-cjson-v1"

-- `validate_decision`
unfoldable pub validate_decision : AuthorizationDecision → Bool
validate_decision d =
    ltb d.accepted_at d.expires_at
    && not (is_blank d.operation || is_blank d.target || is_blank d.policy_version)

module _ (mc : Macs) where
  open mc use {Secret, secret_length, hmac, key_digest}

  pub record CommandAuthorizer : Type 0 where
    pub secret : Secret
    pub policy_version : String
    pub ttl_seconds : ℕ

  -- The constructor.
  unfoldable pub create : Secret → String → ℕ → Result AuthorizationError CommandAuthorizer
  create secret policy_version ttl_seconds =
      if ltb (secret_length secret) 32
      then err secret_too_short
      else ok
          (record { secret = secret; policy_version = policy_version; ttl_seconds = ttl_seconds })

  abbrev pub tag_payload :
      CommandAuthorizer
      → PrincipalRef
      → (operation target payload_sha256 : String) → (accepted_at expires_at : Instant) → TagPayload
  tag_payload z p operation target payload_sha256 accepted_at expires_at = record {
    principal = p;
    operation = operation;
    target = target;
    payload_sha256 = payload_sha256;
    policy_version = z.policy_version;
    canonical_encoding_version = encoding_version;
    accepted_at = accepted_at;
    expires_at = expires_at;
  }

  unfoldable pub scoped_idempotency_key :
      PrincipalRef → (operation target client_key : String) → String
  scoped_idempotency_key p operation target client_key = key_digest (record {
    principal_id = p.principal_id;
    session_epoch = p.session_epoch;
    device_trust_epoch = p.device_trust_epoch;
    canonical_encoding_version = encoding_version;
    operation = operation;
    target = target;
    client_key = client_key;
  })

  -- The payload is any value with its digest.
  module _ {Payload : Type 0} (payload_digest : Payload → String) where
    unfoldable pub decide :
        CommandAuthorizer
        → Uuid
        → PrincipalRef
        → (operation target : String) → Payload
        → (accepted_at : Instant) → Result AuthorizationError AuthorizationDecision
    decide z decision_id p operation target payload accepted_at =
        let expires_at = accepted_at + z.ttl_seconds * 1000000 in
        let digest = payload_digest payload in
        let d : AuthorizationDecision = record {
          decision_id = decision_id;
          principal = p;
          operation = operation;
          target = target;
          payload_sha256 = digest;
          policy_version = z.policy_version;
          canonical_encoding_version = encoding_version;
          accepted_at = accepted_at;
          expires_at = expires_at;
          authorization_tag =
              hmac z.secret (tag_payload z p operation target digest accepted_at expires_at);
        } in
        if validate_decision d then ok d else err invalid_decision

    -- The tag that the decision should carry.
    abbrev pub expected_tag : CommandAuthorizer → AuthorizationDecision → String
    expected_tag z d =
        hmac z.secret (
          tag_payload z d.principal d.operation d.target d.payload_sha256 d.accepted_at
            d.expires_at)

    abbrev pub is_other : AuthorizationDecision → Option PrincipalRef → Bool
    is_other d none = false
    is_other d (some p) = not (same_principal d.principal p)

    unfoldable pub verify :
        CommandAuthorizer
        → AuthorizationDecision
        → Payload
        → (operation target : String) → Option PrincipalRef
        → (now : Instant) → Result AuthorizationError (Unit {0})
    verify z d payload operation target current_principal now =
        if leb d.expires_at now
        then err decision_expired
        else if not (str_eq d.canonical_encoding_version encoding_version)
        then err encoding_version_mismatch
        else if not (str_eq d.operation operation && str_eq d.target target)
        then err operation_or_target_mismatch
        else if not (str_eq (payload_digest payload) d.payload_sha256)
        then err payload_mismatch
        else if is_other d current_principal
        then err principal_changed
        else if not (str_eq (expected_tag z d) d.authorization_tag)
        then err tag_invalid
        else ok tt
