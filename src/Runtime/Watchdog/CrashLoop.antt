-- ===== src/Runtime/Watchdog/CrashLoop.antt =====
-- A crash loop ends in quarantine (watchdog.py).
use sentinel_edge.Prelude.{
  leb, Bool-cases, length, keep, All, length-keep, nat_eq, string_eq, lookup-insert_self, ℕ, suc,
  ◌+◌, ◌≤◌, ◌<◌, String, ◌≡◌, refl, ◌⊎◌, inl, inr, true, List, [], ◌∷◌, ◌++◌, arith, eq_iff,
}
use sentinel_edge.Runtime.Watchdog.{
  WorkerRecoveryPolicy, is_quarantined, failures_of, in_window, record_at, record_all,
}
use sentinel_edge.Runtime.Watchdog.Laws.{IsValid, record_at-IsValid, record_all-quarantined}

-- How many of the recorded times are not before `start`.
abbrev since : ℕ → List ℕ → ℕ
since start ts = length (keep (leb start) ts)

abbrev pub entries : String → List ℕ → List (String × ℕ)
entries k [] = []
entries k (t ∷ ts) = (k, t) ∷ entries k ts

abbrev pub Within : ℕ → ℕ → ℕ → Type 0
Within start window t = (start ≤ t) × (t ≤ start + window)

since-append :
    (start t : ℕ) (ts : List ℕ) → start ≤ t → since start (ts ++ t ∷ []) ≡ suc (since start ts)
since-append start t [] h = ground arith
since-append start t (x ∷ ts) h = ground (arith, since-append start t ts h)

-- What the window of a later failure drops lies before `start`.
since-keep :
    (p : WorkerRecoveryPolicy) (start now : ℕ) (ts : List ℕ)
    → now ≤ start + p.window
    → since start (keep (in_window p now) ts) ≡ since start ts
since-keep p start now [] h = refl
since-keep p start now (t ∷ ts) h = ground (arith, since-keep p start now ts h)

since-le-length : (start : ℕ) (ts : List ℕ) → since start ts ≤ length ts
since-le-length start ts = length-keep (leb start) ts

-- One failure within the window quarantines the profile or adds one to its recent failures.
step :
    (p : WorkerRecoveryPolicy) (k : String) (start now : ℕ)
    → Within start p.window now
    → (is_quarantined (record_at p k now).0 k ≡ true)
      ⊎ (since start (failures_of (record_at p k now).0 k) ≡ suc (since start (failures_of p k)))
unfolding record_at
step p k start now h = ground (
  arith,
  eq_iff k k,
  since-append start now (keep (in_window p now) (failures_of p k)) h.0,
  since-keep p start now (failures_of p k) h.1,
  lookup-insert_self k (keep (in_window p now) (failures_of p k) ++ now ∷ []) p.failures,
)

record_at-bounds :
    (p : WorkerRecoveryPolicy) (k : String) (now : ℕ)
    → ((record_at p k now).0.window ≡ p.window)
      × ((record_at p k now).0.max_restarts ≡ p.max_restarts)
unfolding record_at
record_at-bounds p k now = ground arith

loop :
    (p : WorkerRecoveryPolicy) (k : String) (start : ℕ) (ts : List ℕ)
    → IsValid p
    → All (Within start p.window) ts
    → p.max_restarts < since start (failures_of p k) + length ts
    → is_quarantined (record_all p (entries k ts)) k ≡ true
unfolding record_all
loop p k start [] v w h = elim (Bool-cases (is_quarantined p k)) [
  | inl q ↦ q
  | inr free ↦ absurd (omega (arith, (v k).0 free, since-le-length start (failures_of p k)))
]
loop p k start (t ∷ ts) v w h = elim (step p k start t w.0) [
  | inl q ↦ record_all-quarantined (record_at p k t).0 k (entries k ts) q
  | inr grown ↦
      loop (record_at p k t).0 k start ts (record_at-IsValid p k t v)
        (rw ((record_at-bounds p k t).0) w.1)
        (rw ((record_at-bounds p k t).1, grown) (omega (arith, h)))
]

-- More failures of one profile than its budget, all within one window, quarantine it, whatever was
-- recorded before.
pub crash_loop-quarantined :
    (p : WorkerRecoveryPolicy) (k : String) (start : ℕ) (ts : List ℕ)
    → IsValid p
    → All (Within start p.window) ts
    → p.max_restarts < length ts
    → is_quarantined (record_all p (entries k ts)) k ≡ true
crash_loop-quarantined p k start ts v w h = loop p k start ts v w (omega (arith, h))
