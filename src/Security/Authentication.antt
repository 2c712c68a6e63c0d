-- ===== src/Security/Authentication.antt =====
-- `AuthManager` of src/sentinel_edge/security/auth.py: bearer tokens and role permissions.
pub mod Revocation
use sentinel_edge.Prelude.{
  ltb, leb, if◌then◌else◌, any, Result, text_length, is_empty, strip, nat_eq, string_eq, Dict,
  lookup, insert, ℕ, suc, String, Bool, true, false, not, ◌&&◌, Option, none, some, List, [], ◌∷◌,
  ◌++◌, str_eq, ok, err,
}
use sentinel_edge.Domain.Kinds.{Instant}
use sentinel_edge.Security.Principals.{PrincipalRole, PrincipalRef, is_human}

pub record ProducerIdentityDecision : Type 0 where
  pub allowed : Bool
  pub reason : String

unfoldable pub authorize_producer_identity : PrincipalRef → String → ProducerIdentityDecision
authorize_producer_identity p sending_component =
    let component = strip sending_component in
    if is_empty component
    then record { allowed = false; reason = "sending_component_required" }
    else if not (is_human p.principal_kind) && not (str_eq p.principal_id component)
    then record { allowed = false; reason = "producer_identity_mismatch_audited" }
    else record { allowed = true; reason = "producer_identity_bound" }

pub record TokenRecord : Type 0 where
  pub token_sha256 : String
  pub principal : PrincipalRef
  pub expires_at : Option Instant
  pub disabled : Bool

-- `_ROLE_PERMISSIONS`
unfoldable pub role_permissions : PrincipalRole → List String
role_permissions PrincipalRole.viewer =
    "health:read" ∷ "incidents:read" ∷ "runtime:read" ∷ "configuration:read" ∷ "notifications:read"
    ∷ "sources:read" ∷ "reviews:read" ∷ "evidence:read" ∷ "storage:read" ∷ []
role_permissions PrincipalRole.operator =
    "health:read" ∷ "incidents:read" ∷ "runtime:read" ∷ "configuration:read" ∷ "notifications:read"
    ∷ "sources:read" ∷ "reviews:read" ∷ "evidence:read" ∷ "evidence:write" ∷ "incidents:command"
    ∷ "scenarios:run" ∷ "incidents:acknowledge" ∷ "incidents:snooze" ∷ "notifications:dispatch"
    ∷ "reviews:generate" ∷ "storage:read" ∷ "spool:reconcile" ∷ []
role_permissions PrincipalRole.admin = "*" ∷ []

pub record AuthManager : Type 0 where
  pub development_only : Bool
  pub records : Dict String TokenRecord

pub data AuthError : Type 0 where
  token_too_short duplicate_token missing_token invalid_token token_disabled token_expired :
      AuthError
  permission_denied non_human_principal : AuthError

abbrev pub has_text : String → List String → Bool
has_text s = any (str_eq s)

-- The union of the permissions of the roles.
unfoldable pub permissions : List PrincipalRole → List String
permissions [] = []
permissions (r ∷ rs) = role_permissions r ++ permissions rs

unfoldable pub authorize : PrincipalRef → String → Result AuthError (Unit {0})
authorize p permission =
    let granted = permissions p.roles in
    if not (is_human p.principal_kind) && str_eq permission "reviews:generate"
    then err non_human_principal
    else if not (has_text "*" granted) && not (has_text permission granted)
    then err permission_denied
    else ok tt

abbrev expired : Option Instant → Instant → Bool
expired none now = false
expired (some at) now = leb at now

abbrev pub disable : TokenRecord → TokenRecord
disable r = record r { disabled = true }

-- The loop of `disable_principal` over the records.
unfoldable pub disable_each : String → Dict String TokenRecord → ℕ × Dict String TokenRecord
disable_each principal_id [] = (0, [])
disable_each principal_id ((digest, r) ∷ d) =
    let (changed, rest) = disable_each principal_id d in
    if str_eq r.principal.principal_id principal_id && not r.disabled
    then (suc changed, (digest, disable r) ∷ rest)
    else (changed, (digest, r) ∷ rest)

unfoldable pub disable_principal : String → AuthManager → ℕ × AuthManager
disable_principal principal_id m =
    let (changed, records) = disable_each principal_id m.records in
    (changed, record m { records = records })

module _ (sha256 : String → String) where
  unfoldable pub add_token :
      String → PrincipalRef → Option Instant → AuthManager → Result AuthError AuthManager
  add_token token p expires_at m =
      let digest = sha256 token in
      if ltb (text_length token) 16 then err token_too_short else elim (lookup digest m.records) [
        | some r ↦ err duplicate_token
        | none ↦ ok (record m {
          records =
              insert digest
                (record {
                  token_sha256 = digest;
                  principal = p;
                  expires_at = expires_at;
                  disabled = false;
                })
                m.records;
        })
      ]

  -- The constructor.
  unfoldable pub create : List (String × PrincipalRef) → AuthManager → Result AuthError AuthManager
  create [] m = ok m
  create ((token, p) ∷ l) m = elim (add_token token p none m) [ err x ↦ err x | ok n ↦ create l n ]

  unfoldable pub authenticate :
      Option String → Instant → AuthManager → Result AuthError PrincipalRef
  authenticate none now m = err missing_token
  authenticate (some token) now m =
      let digest = sha256 token in
      if is_empty token then err missing_token else elim (lookup digest m.records) [
        | none ↦ err invalid_token
        | some r ↦
            if not (str_eq r.token_sha256 digest)
            then err invalid_token
            else if r.disabled
            then err token_disabled
            else if expired r.expires_at now
            then err token_expired
            else ok r.principal
      ]

  unfoldable pub disable_token : String → AuthManager → Result AuthError PrincipalRef × AuthManager
  disable_token token m =
      let digest = sha256 token in
      elim (lookup digest m.records) [
        | none ↦ (err invalid_token, m)
        | some r ↦
            if not (str_eq r.token_sha256 digest)
            then (err invalid_token, m)
            else (ok r.principal, record m { records = insert digest (disable r) m.records })
      ]
