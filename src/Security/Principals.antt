-- ===== src/Security/Principals.antt =====
-- Principals of src/sentinel_edge/domain/models.py, with the comparison of two of them.
use sentinel_edge.Prelude.{
  ◌==◌, list_eq, list_eq_iff, nat_eq, ℕ, String, ◌≡◌, ◌↔◌, Bool, true, false, ◌&&◌, List, arith,
  str_eq, eq_iff,
}

pub data PrincipalRole : Type 0 where
  viewer operator admin : PrincipalRole

pub data PrincipalKind : Type 0 where
  human service device system : PrincipalKind

pub record PrincipalRef : Type 0 where
  pub principal_id : String
  pub roles : List PrincipalRole
  pub scopes : List String
  pub authentication_method : String
  pub principal_kind : PrincipalKind
  pub session_epoch : ℕ
  pub device_trust_epoch : ℕ

abbrev pub is_human : PrincipalKind → Bool
is_human human = true
is_human _ = false

abbrev role_eq : PrincipalRole → PrincipalRole → Bool
role_eq viewer viewer = true
role_eq operator operator = true
role_eq admin admin = true
role_eq _ _ = false

abbrev kind_eq : PrincipalKind → PrincipalKind → Bool
kind_eq human human = true
kind_eq service service = true
kind_eq device device = true
kind_eq system system = true
kind_eq _ _ = false

-- `==` on two principals.
unfoldable pub same_principal : PrincipalRef → PrincipalRef → Bool
same_principal p q =
    str_eq p.principal_id q.principal_id
    && list_eq role_eq p.roles q.roles
    && list_eq str_eq p.scopes q.scopes
    && str_eq p.authentication_method q.authentication_method
    && kind_eq p.principal_kind q.principal_kind
    && p.session_epoch == q.session_epoch
    && p.device_trust_epoch == q.device_trust_epoch

role_eq_iff : (a b : PrincipalRole) → (role_eq a b ≡ true) ↔ (a ≡ b)
role_eq_iff a b = ground arith

kind_eq_iff : (a b : PrincipalKind) → (kind_eq a b ≡ true) ↔ (a ≡ b)
kind_eq_iff a b = ground arith

pub same_principal_iff : (p q : PrincipalRef) → (same_principal p q ≡ true) ↔ (p ≡ q)
unfolding same_principal
same_principal_iff p q = ground (
  arith,
  eq_iff p.principal_id q.principal_id,
  list_eq_iff role_eq role_eq_iff p.roles q.roles,
  list_eq_iff str_eq eq_iff p.scopes q.scopes,
  eq_iff p.authentication_method q.authentication_method,
  kind_eq_iff p.principal_kind q.principal_kind,
)
