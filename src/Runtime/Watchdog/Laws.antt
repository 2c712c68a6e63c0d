-- ===== src/Runtime/Watchdog/Laws.antt =====
-- The restart budget and the quarantine of watchdog.py over any run of failures.
use sentinel_edge.Prelude.{
  length, keep, length-append, length-keep, nat_eq, string_eq, lookup-insert, ℕ, suc, ◌≤◌, String,
  ◌≡◌, ◌↔◌, true, false, List, [], ◌∷◌, ◌++◌, arith, eq_iff, ok,
}
use sentinel_edge.Runtime.Watchdog.{
  WorkerRecoveryPolicy, init, is_quarantined, failures_of, in_window, record_at,
  hardware_watchdog_recovery, record_all,
}

-- A profile that is not quarantined has used at most its budget, a quarantined one passed it by one
-- at most.
abbrev pub IsBounded : WorkerRecoveryPolicy → String → Type 0
IsBounded p k =
    (is_quarantined p k ≡ false → length (failures_of p k) ≤ p.max_restarts)
    × (length (failures_of p k) ≤ suc p.max_restarts)

abbrev pub IsValid : WorkerRecoveryPolicy → Type 0
IsValid p = (k : String) → IsBounded p k

-- A new policy has recorded nothing, so every profile is within its budget.
pub init-IsValid : (m w : ℕ) (p : WorkerRecoveryPolicy) → init m w ≡ ok p → IsValid p
unfolding init
init-IsValid m w p h k = ground arith

length-recent :
    (p : WorkerRecoveryPolicy) (k : String) (now : ℕ)
    → length (keep (in_window p now) (failures_of p k) ++ now ∷ []) ≤ suc (length (failures_of p k))
length-recent p k now = omega (
  arith,
  length-append (keep (in_window p now) (failures_of p k)) (now ∷ []),
  length-keep (in_window p now) (failures_of p k),
)

pub record_at-IsValid :
    (p : WorkerRecoveryPolicy) (id : String) (now : ℕ) → IsValid p → IsValid (record_at p id now).0
unfolding record_at
record_at-IsValid p id now v k = ground (
  arith,
  v k,
  eq_iff k id,
  length-recent p id now,
  lookup-insert k id (keep (in_window p now) (failures_of p id) ++ now ∷ []) p.failures,
)

-- Whatever failures are recorded, in any interleaving of profiles, every profile stays within its
-- budget, or passed it by one and is quarantined.
pub record_all-IsValid :
    (p : WorkerRecoveryPolicy) (es : List (String × ℕ)) → IsValid p → IsValid (record_all p es)
unfolding record_all
record_all-IsValid p [] v = v
record_all-IsValid p ((id, now) ∷ es) v =
    record_all-IsValid (record_at p id now).0 es (record_at-IsValid p id now v)

record_at-quarantined :
    (p : WorkerRecoveryPolicy) (id k : String) (now : ℕ)
    → is_quarantined p k ≡ true
    → is_quarantined (record_at p id now).0 k ≡ true
unfolding record_at
record_at-quarantined p id k now q = ground arith

pub record_all-quarantined :
    (p : WorkerRecoveryPolicy) (k : String) (es : List (String × ℕ))
    → is_quarantined p k ≡ true
    → is_quarantined (record_all p es) k ≡ true
unfolding record_all
record_all-quarantined p k [] q = q
record_all-quarantined p k ((id, now) ∷ es) q =
    record_all-quarantined (record_at p id now).0 k es (record_at-quarantined p id k now q)

-- Quarantine is for good: once a profile is quarantined, after any further failures, of this or
-- other profiles, no process restart of it and no hardware recovery of it is allowed.
pub quarantine-permanent :
    (p : WorkerRecoveryPolicy) (k : String) (es : List (String × ℕ)) (now : ℕ)
    → is_quarantined p k ≡ true
    → let q = record_all p es in
      ((record_at q k now).1.allowed ≡ false)
      × ((record_at q k now).0 ≡ q)
      × ((hardware_watchdog_recovery q k).allowed ≡ false)
unfolding record_at hardware_watchdog_recovery
quarantine-permanent p k es now h = let e = record_all-quarantined p k es h in (rw e, rw e, rw e)

-- A restart is allowed exactly when the profile is not quarantined and its failures within the
-- window that ends now, this one included, are within the budget.
pub record_at-allowed_iff :
    (p : WorkerRecoveryPolicy) (k : String) (now : ℕ)
    → ((record_at p k now).1.allowed ≡ true) ↔ (
        (is_quarantined p k ≡ false)
        × (suc (length (keep (in_window p now) (failures_of p k))) ≤ p.max_restarts))
unfolding record_at
record_at-allowed_iff p k now =
    let e = length-append (keep (in_window p now) (failures_of p k)) (now ∷ []) in
    (λ h. ground (arith, e), λ h. ground (arith, e))
