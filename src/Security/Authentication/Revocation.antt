-- ===== src/Security/Authentication/Revocation.antt =====
-- Revoked tokens of `AuthManager` (src/sentinel_edge/security/auth.py).
use sentinel_edge.Prelude.{
  Bool-cases, Option-cases, nat_eq, string_eq, Dict, lookup, lookup-insert, String, ◌≡◌, refl, ◌≢◌,
  inl, inr, Bool, true, false, not, ◌&&◌, ◌||◌, Option, none, some, List, [], ◌∷◌, arith, str_eq,
  eq_iff, ok, err,
}
use sentinel_edge.Domain.Kinds.{Instant}
use sentinel_edge.Security.Principals.{PrincipalRef}
use sentinel_edge.Security.Authentication.{
  TokenRecord, AuthManager, disable, disable_each, disable_principal, add_token, authenticate,
  disable_token,
}

-- The operations that change the manager, with their arguments.
pub data Change : Type 0 where
  token_added : String → PrincipalRef → Option Instant → Change
  token_disabled principal_disabled : String → Change

-- The record under a digest is disabled.
abbrev is_disabled : Option TokenRecord → Bool
is_disabled none = false
is_disabled (some r) = r.disabled

lookup-disable_each :
    (digest principal_id : String) (d : Dict String TokenRecord) (r : TokenRecord)
    → lookup digest d ≡ some r
    → (r' : TokenRecord) × (lookup digest (disable_each principal_id d).1 ≡ some r')
      × ((r.disabled || str_eq r.principal.principal_id principal_id) ≡ true → r'.disabled ≡ true)
unfolding disable_each
lookup-disable_each digest principal_id [] r h = absurd ground arith
lookup-disable_each digest principal_id ((k, x) ∷ d) r h = elim (Bool-cases (str_eq digest k)) [
  | inl same ↦ elim (Bool-cases (str_eq x.principal.principal_id principal_id && not x.disabled)) [
    | inl now ↦ (disable x, ground arith, λ _. refl)
    | inr kept ↦ (x, ground arith, λ g. ground arith)
  ]
  | inr other ↦
      let (r', found, off) = lookup-disable_each digest principal_id d r (ground arith) in
      (r', ground arith, off)
]

module _ (sha256 : String → String) where
  -- The manager after a change; a refused one leaves it alone.
  unfoldable pub changed : Change → AuthManager → AuthManager
  changed (token_added t p e) m = elim (add_token sha256 t p e m) [ ok n ↦ n | err x ↦ m ]
  changed (token_disabled t) m = (disable_token sha256 t m).1
  changed (principal_disabled p) m = (disable_principal p m).1

  unfoldable pub changed_all : List Change → AuthManager → AuthManager
  changed_all [] m = m
  changed_all (c ∷ cs) m = changed_all cs (changed c m)

  -- The token's record is in the manager and is disabled.
  IsRevoked : String → AuthManager → Type 0
  IsRevoked token m =
      (r : TokenRecord) × (lookup (sha256 token) m.records ≡ some r) × (r.disabled ≡ true)

  changed-IsRevoked :
      (token : String) (c : Change) (m : AuthManager)
      → IsRevoked token m
      → IsRevoked token (changed c m)
  unfolding changed add_token disable_token disable_principal IsRevoked
  changed-IsRevoked token (token_added t p e) m (r, found, off) = (
    r,
    ground (
      arith,
      lookup-insert (sha256 token) (sha256 t)
          (record { token_sha256 = sha256 t; principal = p; expires_at = e; disabled = false })
          m.records,
      eq_iff (sha256 token) (sha256 t),
    ),
    off,
  )
  changed-IsRevoked token (token_disabled t) m (r, found, off) =
      elim (Option-cases (lookup (sha256 t) m.records)) [
        | inl none_there ↦ (r, ground arith, off)
        | inr (x, there) ↦ elim (Bool-cases (str_eq x.token_sha256 (sha256 t))) [
          | inr differs ↦ (r, ground arith, off)
          | inl same ↦
              let kept = lookup-insert (sha256 token) (sha256 t) (disable x) m.records in
              elim (Bool-cases (str_eq (sha256 token) (sha256 t))) [
                | inl here ↦ (disable x, ground (arith, kept), refl)
                | inr other ↦ (r, ground (arith, kept), off)
              ]
        ]
      ]
  changed-IsRevoked token (principal_disabled p) m (r, found, off) =
      let (r', there, still) = lookup-disable_each (sha256 token) p m.records r found in
      (r', ground arith, still (ground arith))

  changed_all-IsRevoked :
      (token : String) (cs : List Change) (m : AuthManager)
      → IsRevoked token m
      → IsRevoked token (changed_all cs m)
  unfolding changed_all
  changed_all-IsRevoked token [] m h = h
  changed_all-IsRevoked token (c ∷ cs) m h =
      changed_all-IsRevoked token cs (changed c m) (changed-IsRevoked token c m h)

  -- Once a principal is disabled, none of the tokens that it held authenticates anyone again, at
  -- any time, whatever tokens are added, and whatever tokens and principals are disabled, after that.
  pub revoked-refused :
      (token principal_id : String) (m : AuthManager) (r : TokenRecord)
      → lookup (sha256 token) m.records ≡ some r
      → r.principal.principal_id ≡ principal_id
      → (cs : List Change) (now : Instant) (q : PrincipalRef)
      → authenticate sha256 (some token) now (changed_all cs (disable_principal principal_id m).1)
        ≢ ok q
  unfolding authenticate disable_principal IsRevoked
  revoked-refused token principal_id m r found holds cs now q =
      let (r', there, off) = lookup-disable_each (sha256 token) principal_id m.records r found in
      let (x, kept, still) =
        changed_all-IsRevoked token cs (disable_principal principal_id m).1
          (r', there, off (ground (arith, eq_iff r.principal.principal_id principal_id))) in
      λ h. ground arith
