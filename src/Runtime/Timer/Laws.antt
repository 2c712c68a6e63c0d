-- ===== src/Runtime/Timer/Laws.antt =====
-- What an allowed decision of timer_policy.py means.
use sentinel_edge.Prelude.{
  is_blank, ℕ, ◌≤◌, ◌<◌, String, ◌≡◌, ◌↔◌, ◌⊎◌, Bool, true, false, arith, eq_iff,
}
use sentinel_edge.Runtime.Timer.{same_boot_authority, retention_gc_allowed}

-- Same-boot authority is granted exactly when both boot identities are non-blank and equal, the
-- monotonic clock has not gone back behind the issue time, and the grant has not expired.
pub same_boot_authority_iff :
    (issued now : ℕ) (issued_boot now_boot : String) (expires : ℕ)
    → ((same_boot_authority issued now issued_boot now_boot expires).allowed ≡ true)
      ↔ ((is_blank now_boot ≡ false) × (issued_boot ≡ now_boot) × (issued ≤ now) × (now < expires))
unfolding same_boot_authority
same_boot_authority_iff i n ib nb e =
    (λ h. ground (arith, eq_iff ib nb), λ h. ground (arith, eq_iff ib nb))

-- Deletion by retention is allowed exactly when the minimum age is met and an expiry read off the
-- wall clock, if that is the ground, comes from trusted time.
pub retention_gc_allowed_iff :
    (trusted aged expired : Bool)
    → ((retention_gc_allowed trusted aged expired).allowed ≡ true)
      ↔ ((aged ≡ true) × ((expired ≡ false) ⊎ (trusted ≡ true)))
unfolding retention_gc_allowed
retention_gc_allowed_iff t a e = (λ h. ground arith, λ h. ground arith)
