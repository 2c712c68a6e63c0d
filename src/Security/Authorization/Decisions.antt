-- ===== src/Security/Authorization/Decisions.antt =====
-- Decisions of `CommandAuthorizer` (src/sentinel_edge/security/auth.py).
use sentinel_edge.Prelude.{
  nat_eq, ◌+◌, ◌*◌, ◌<◌, String, ◌≡◌, ◌↔◌, false, Option, some, arith, eq_iff, ok,
}
use sentinel_edge.Domain.Kinds.{Uuid, Instant}
use sentinel_edge.Security.Principals.{PrincipalRef, same_principal_iff}
use sentinel_edge.Security.Authorization.{
  AuthorizationDecision, Macs, CommandAuthorizer, encoding_version, decide, verify, expected_tag,
  is_other,
}

-- What `verify` checks.
pub record IsAccepted (mc : Macs) {Payload : Type 0} (payload_digest : Payload → String)
    (z : CommandAuthorizer mc) (d : AuthorizationDecision) (payload : Payload)
    (operation target : String) (current_principal : Option PrincipalRef) (now : Instant)
    : Type 0 where
  pub unexpired : now < d.expires_at
  pub encoding : d.canonical_encoding_version ≡ encoding_version
  pub for_operation : d.operation ≡ operation
  pub for_target : d.target ≡ target
  pub for_payload : payload_digest payload ≡ d.payload_sha256
  pub for_principal : is_other mc payload_digest d current_principal ≡ false
  pub tagged : expected_tag mc payload_digest z d ≡ d.authorization_tag

pub verify_iff :
    (mc : Macs) {Payload : Type 0} (payload_digest : Payload → String) (z : CommandAuthorizer mc)
    (d : AuthorizationDecision) (payload : Payload) (operation target : String)
    (current_principal : Option PrincipalRef) (now : Instant)
    → (verify mc payload_digest z d payload operation target current_principal now ≡ ok tt)
      ↔ IsAccepted mc payload_digest z d payload operation target current_principal now
unfolding verify
verify_iff mc payload_digest z d payload operation target current_principal now = (
  λ h. record {
    unexpired = ground arith;
    encoding = (eq_iff d.canonical_encoding_version encoding_version).0 (ground arith);
    for_operation = (eq_iff d.operation operation).0 (ground arith);
    for_target = (eq_iff d.target target).0 (ground arith);
    for_payload = (eq_iff (payload_digest payload) d.payload_sha256).0 (ground arith);
    for_principal = ground arith;
    tagged = (eq_iff (expected_tag mc payload_digest z d) d.authorization_tag).0 (ground arith);
  },
  λ a.
      let enc = (eq_iff d.canonical_encoding_version encoding_version).1 a.encoding in
      let op = (eq_iff d.operation operation).1 a.for_operation in
      let tg = (eq_iff d.target target).1 a.for_target in
      let pl = (eq_iff (payload_digest payload) d.payload_sha256).1 a.for_payload in
      let tag = (eq_iff (expected_tag mc payload_digest z d) d.authorization_tag).1 a.tagged in
      let early = a.unexpired in let who = a.for_principal in ground arith,
)

-- A decision that an authorizer made is accepted by the same authorizer exactly for its own
-- operation and target, a payload with the same digest and the principal it was made for, and only
-- before it expires.
pub verify-decide_iff :
    (mc : Macs) {Payload : Type 0} (payload_digest : Payload → String) (z : CommandAuthorizer mc)
    (decision_id : Uuid) (p q : PrincipalRef) (operation target operation' target' : String)
    (payload payload' : Payload) (accepted_at now : Instant) (d : AuthorizationDecision)
    → decide mc payload_digest z decision_id p operation target payload accepted_at ≡ ok d
    → (verify mc payload_digest z d payload' operation' target' (some q) now ≡ ok tt) ↔ (
        (now < accepted_at + z.ttl_seconds * 1000000)
        × (operation ≡ operation')
        × (target ≡ target')
        × (payload_digest payload' ≡ payload_digest payload)
        × (p ≡ q))
unfolding decide
verify-decide_iff mc payload_digest z decision_id p q operation target operation' target' payload
      payload' accepted_at now d h =
    let (to, back) = verify_iff mc payload_digest z d payload' operation' target' (some q) now in
    let until : d.expires_at ≡ accepted_at + z.ttl_seconds * 1000000 = ground arith in
    let tag : expected_tag mc payload_digest z d ≡ d.authorization_tag = ground arith in
    let who = same_principal_iff d.principal q in
    (
      λ v.
          let a = to v in
          let early = a.unexpired in
          let op = a.for_operation in
          let tg = a.for_target in
          let pl = a.for_payload in
          let pr = a.for_principal in
          (ground arith, ground arith, ground arith, ground arith, ground arith),
      λ c. back (record {
        unexpired = ground arith;
        encoding = ground arith;
        for_operation = ground arith;
        for_target = ground arith;
        for_payload = ground arith;
        for_principal = ground arith;
        tagged = tag;
      }),
    )
