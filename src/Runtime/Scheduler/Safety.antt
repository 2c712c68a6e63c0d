-- ===== src/Runtime/Scheduler/Safety.antt =====
-- What a dispatched job may rely on (src/sentinel_edge/runtime/scheduler.py).
use sentinel_edge.Prelude.{
  first, nat_eq, ℕ, ◌+◌, ◌≤◌, ◌≡◌, refl, ◌⊎◌, Bool, true, false, Option, none, some, List, [], ◌∷◌,
  arith, ok,
}
use sentinel_edge.Domain.Kinds.{Uuid, tier_value}
use sentinel_edge.Runtime.Opportunities.{Ledger}
use sentinel_edge.Runtime.Scheduler.Steps.{ScanStep, scan-ScanStep, after_item}
use sentinel_edge.Prelude.{
  first, ℕ, ◌+◌, ◌≤◌, ◌≡◌, refl, ◌⊎◌, Bool, true, false, Option, none, some, List, [], ◌∷◌, arith,
  ok,
}
use sentinel_edge.Runtime.Scheduler.{
  Resources, JobRequest, Item, Scheduler, blocked, is_tier_a, declare_overload,
}
use sentinel_edge.Runtime.Scheduler.Admission.{
  admit, admissible, admissible_by_resources, elapsed, forced_scan_due,
}
use sentinel_edge.Runtime.Scheduler.Dispatch.{Scan, scan}

module _ {P : Type 0} where
  -- What admission, deferral and rejection leave alone.
  pub record SameActive (s t : Scheduler P) : Type 0 where
    pub active : t.active ≡ s.active
    pub pairs : t.known_safe_interference_pairs ≡ s.known_safe_interference_pairs
    pub reserve : t.tier_a_reserve_memory_mb ≡ s.tier_a_reserve_memory_mb

  -- What an admitted job has: no unsafe neighbour among the active jobs, its own memory, and either
  -- room beside the tier-A reserve or a reason that outranks it.
  pub record IsAdmitted (resources : Resources) (now_ns : ℕ) (s : Scheduler P) (job : JobRequest P)
      : Type 0 where
    pub neighbours : blocked s job.workload ≡ false
    pub memory : job.workload.memory_mb ≤ resources.available_memory_mb
    pub room :
        (job.workload.memory_mb + s.tier_a_reserve_memory_mb ≤ resources.available_memory_mb)
        ⊎ ((is_tier_a job.workload.tier ≡ true)
            ⊎ ((forced_scan_due job.workload.forced_scan_ms job.released_monotonic_ns now_ns ≡ true)
                ⊎ ((elapsed job.released_monotonic_ns job.workload.max_deferral_ms now_ns ≡ true)
                    × (tier_value job.workload.tier ≤ 2))))

  admissible-SameActive :
      (job : JobRequest P) (r : Resources) (now : ℕ) (s : Scheduler P)
      → SameActive s (admissible job r now s).2
  unfolding admissible admissible_by_resources declare_overload
  admissible-SameActive job r now s = ground arith

  pub admissible-IsAdmitted :
      (job : JobRequest P) (r : Resources) (now : ℕ) (s : Scheduler P)
      → (admissible job r now s).0 ≡ admit
      → ((admissible job r now s).1 ≡ job) × IsAdmitted r now s job
  unfolding admissible admissible_by_resources
  admissible-IsAdmitted job r now s h = ground arith

  SameActive-trans : (s t u : Scheduler P) → SameActive s t → SameActive t u → SameActive s u
  SameActive-trans s t u h k = ground arith

  pub IsAdmitted-SameActive :
      (r : Resources) (now : ℕ) (s t : Scheduler P) (job : JobRequest P)
      → SameActive s t
      → IsAdmitted r now t job
      → IsAdmitted r now s job
  IsAdmitted-SameActive r now s t job h k = ground arith

  pub admissible-verdict :
      (job : JobRequest P) (r : Resources) (now : ℕ) (s t : Scheduler P)
      → SameActive s t
      → (admissible job r now t).0 ≡ (admissible job r now s).0
  unfolding admissible admissible_by_resources
  admissible-verdict job r now s t h = ground arith

  pub admissible-job :
      (job : JobRequest P) (r : Resources) (now : ℕ) (s t : Scheduler P)
      → SameActive s t
      → (admissible job r now t).1 ≡ (admissible job r now s).1
  unfolding admissible admissible_by_resources
  admissible-job job r now s t h = ground arith

  -- Whether a job is let past admission.
  abbrev pub admits : Resources → ℕ → Scheduler P → Item P → Bool
  admits r now s i = elim (admissible i.job r now s).0 [ admit ↦ true | _ ↦ false ]

  admits-SameActive :
      (i : Item P) (r : Resources) (now : ℕ) (s t : Scheduler P)
      → SameActive s t
      → admits r now t i ≡ admits r now s i
  admits-SameActive i r now s t h = ground (arith, admissible-verdict i.job r now s t h)

  first-admits-SameActive :
      (q : List (Item P)) (r : Resources) (now : ℕ) (s t : Scheduler P)
      → SameActive s t
      → first (admits r now t) q ≡ first (admits r now s) q
  first-admits-SameActive [] r now s t h = refl
  first-admits-SameActive (i ∷ q) r now s t h =
      ground (arith, admits-SameActive i r now s t h, first-admits-SameActive q r now s t h)

  pub after_item-SameActive :
      (r : Resources) (now : ℕ) (i : Item P) (s : Scheduler P) (opportunities : Ledger)
      (ids : List Uuid)
      → SameActive s (after_item r now i s opportunities ids)
  after_item-SameActive r now i s opportunities ids =
      ground (arith, admissible-SameActive i.job r now s)

  abbrev pub job_of_item : Option (Item P) → Option (JobRequest P)
  job_of_item none = none
  job_of_item (some i) = some i.job

  pub scan-SameActive :
      (r : Resources) (now : ℕ) (q : List (Item P)) (s : Scheduler P) (c : Scan P)
      → scan r now q s ≡ ok c
      → SameActive s c.scheduler
  unfolding scan
  scan-SameActive r now [] s c h = ground arith
  scan-SameActive r now (i ∷ q) s c h = elim (scan-ScanStep r now i q s c h) [
    | ScanStep.stop v e ↦ ground (arith, admissible-SameActive i.job r now s)
    | ScanStep.pass led ids d v e k ↦ ground (
      arith,
      scan-SameActive r now q (after_item r now i s led ids) d e,
      after_item-SameActive r now i s led ids,
    )
    | ScanStep.drop led ids reason d v e k ↦ ground (
      arith,
      scan-SameActive r now q (after_item r now i s led ids) d e,
      after_item-SameActive r now i s led ids,
    )
  ]

  pub scan-first :
      (r : Resources) (now : ℕ) (q : List (Item P)) (s : Scheduler P) (c : Scan P)
      → scan r now q s ≡ ok c
      → c.selected ≡ job_of_item (first (admits r now s) q)
  unfolding scan
  scan-first r now [] s c h = ground arith
  scan-first r now (i ∷ q) s c h = elim (scan-ScanStep r now i q s c h) [
    | ScanStep.stop v e ↦ ground (arith, admissible-IsAdmitted i.job r now s v)
    | ScanStep.pass led ids d v e k ↦
        let t = after_item r now i s led ids in
        ground (
          arith,
          scan-first r now q t d e,
          first-admits-SameActive q r now s t (after_item-SameActive r now i s led ids),
        )
    | ScanStep.drop led ids reason d v e k ↦
        let t = after_item r now i s led ids in
        ground (
          arith,
          scan-first r now q t d e,
          first-admits-SameActive q r now s t (after_item-SameActive r now i s led ids),
        )
  ]
