-- ===== src/Security/Examples.antt =====
-- Runs of the token manager and of the authorizer (src/sentinel_edge/security/auth.py), with their
-- theorems at concrete inputs.
use sentinel_edge.Prelude.{
  is_blank, text_append, text_length, is_empty, nat_eq, string_eq, ◌+◌, ◌*◌, ◌<◌, String, ◌≡◌, refl,
  ◌≢◌, ◌↔◌, false, none, some, [], ◌∷◌, ok, err,
}
use sentinel_edge.Security.Principals.{PrincipalRole, PrincipalKind, PrincipalRef}
use sentinel_edge.Security.Authentication.{
  TokenRecord, AuthManager, AuthError, add_token, authenticate, disable_principal, authorize,
  permissions, role_permissions,
}
use sentinel_edge.Security.Authentication.Revocation.{Change, changed_all, revoked-refused}
use sentinel_edge.Security.Authorization.{
  AuthorizationDecision, Macs, CommandAuthorizer, encoding_version, decide, verify,
  validate_decision,
}
use sentinel_edge.Security.Authorization.Decisions.{verify-decide_iff}

abbrev pub principal : PrincipalRef
principal = record {
  principal_id = "ana";
  roles = PrincipalRole.operator ∷ [];
  scopes = [];
  authentication_method = "local_bearer";
  principal_kind = PrincipalKind.human;
  session_epoch = 1;
  device_trust_epoch = 1;
}

abbrev digest_text : String → String
digest_text s = s

abbrev token : String
token = "a-token-of-some-length"

abbrev token_record : TokenRecord
token_record = record {
  token_sha256 = digest_text token;
  principal = principal;
  expires_at = none;
  disabled = false;
}

abbrev manager : AuthManager
manager = record { development_only = false; records = (token, token_record) ∷ [] }

token-added :
    add_token digest_text token principal none (record { development_only = false; records = [] })
    ≡ ok manager
unfolding add_token text_length
token-added = refl

token-accepted : authenticate digest_text (some token) 5 manager ≡ ok principal
unfolding authenticate is_empty
token-accepted = refl

operator_commands : authorize principal "incidents:command" ≡ ok tt
unfolding authorize permissions role_permissions
operator_commands = refl

operator_configuration : authorize principal "configuration:write" ≡ err AuthError.permission_denied
unfolding authorize permissions role_permissions
operator_configuration = refl

revoked-refused_example :
    authenticate digest_text (some token) 9 (
      changed_all digest_text
        (Change.token_added "another-token-for-her" principal none
          ∷ Change.token_added token principal none
          ∷ [])
        (disable_principal "ana" manager).1)
    ≢ ok principal
revoked-refused_example =
    revoked-refused digest_text token "ana" manager token_record refl refl
      (Change.token_added "another-token-for-her" principal none
        ∷ Change.token_added token principal none
        ∷ [])
      9 principal

abbrev pub macs : Macs
macs = record {
  Secret = String;
  secret_length = text_length;
  hmac = λ secret t. text_append secret (text_append t.operation t.payload_sha256);
  key_digest = λ k. k.client_key;
}

abbrev pub authorizer : CommandAuthorizer macs
authorizer = record { secret = "secret"; policy_version = "local-policy-v1"; ttl_seconds = 30 }

abbrev decision : AuthorizationDecision
decision = record {
  decision_id = 4;
  principal = principal;
  operation = "incidents:snooze";
  target = "incident:40";
  payload_sha256 = "payload";
  policy_version = "local-policy-v1";
  canonical_encoding_version = encoding_version;
  accepted_at = 100;
  expires_at = 30000100;
  authorization_tag = "secretincidents:snoozepayload";
}

decision-made :
    decide macs digest_text authorizer 4 principal "incidents:snooze" "incident:40" "payload" 100
    ≡ ok decision
unfolding decide validate_decision is_blank text_append
decision-made = refl

abbrev snooze : String
snooze = "incidents:snooze"

abbrev here : String
here = "incident:40"

abbrev elsewhere : String
elsewhere = "incident:41"

abbrev payload : String
payload = "payload"

verify-decide_iff_example :
    (verify macs digest_text authorizer decision payload snooze elsewhere (some principal) 200
      ≡ ok tt)
    ↔ ((200 < 100 + 30 * 1000000)
        × (snooze ≡ snooze)
        × (here ≡ elsewhere)
        × (payload ≡ payload)
        × (principal ≡ principal))
verify-decide_iff_example =
    verify-decide_iff macs digest_text authorizer 4 principal principal snooze here snooze elsewhere
      payload payload 100 200 decision decision-made
