-- ===== src/Runtime/Scheduler.antt =====
-- `WorkloadScheduler` of src/sentinel_edge/runtime/scheduler.py. The heap is the list of its items
-- in the order in which they would be popped; a job object that the queue, the active table and the
-- caller share is the value that the last of them holds. Clock readings are arguments.
pub mod Admission
pub mod Dispatch
pub mod Steps
pub mod Safety
pub mod Selection
pub mod Order
pub mod Remaining
pub mod Tickets
pub mod Accounting
pub mod Totality
pub mod Examples
use Prim.Native.Nat.{max, Ordering}
use Prim.Native.String.{compare as compare_text}
use sentinel_edge.Prelude.{
  ltb, leb, ◌==◌, if◌then◌else◌, any, nat_eq, string_eq, Dict, Floats, ℕ, String, Bool, true, false,
  not, ◌&&◌, ◌||◌, Option, List, [], ◌∷◌, str_eq,
}
use sentinel_edge.Domain.Kinds.{Uuid, Instant, HazardKind, CriticalityTier, JobStatus, RuntimeMode}
use sentinel_edge.Runtime.Opportunities.{Ledger, LedgerError, add_reason}

pub record WorkloadSpec : Type 0 where
  pub workload_id : String
  pub hazard : HazardKind
  pub tier : CriticalityTier
  pub period_ms : ℕ
  pub deadline_ms : ℕ
  pub max_deferral_ms : ℕ
  pub estimated_cost_ms : ℕ
  pub memory_mb : ℕ
  pub profile_id : String
  pub forced_scan_ms : Option ℕ

module _ (fl : Floats) where
  open fl use {Float, float_le, hundredths, of_nat}

  pub record ResourceSnapshot : Type 0 where
    pub cpu_pressure : Float
    pub memory_pressure : Float
    pub io_pressure : Float
    pub temperature_c : Float
    pub available_memory_mb : ℕ
    pub power_degraded : Bool

  -- The property `overloaded`.
  unfoldable pub is_overloaded : ResourceSnapshot → Bool
  is_overloaded r =
      float_le (hundredths 90) r.cpu_pressure
      || float_le (hundredths 85) r.memory_pressure
      || float_le (hundredths 85) r.io_pressure
      || float_le (of_nat 82) r.temperature_c
      || r.power_degraded

-- What `dispatch` reads of a snapshot.
pub record Resources : Type 0 where
  pub available_memory_mb : ℕ
  pub overloaded : Bool

-- The payload of a job is opaque to the scheduler.
pub record JobRequest (P : Type 0) : Type 0 where
  pub job_id : Uuid
  pub opportunity_id : Uuid
  pub correlation_id : Uuid
  pub workload : WorkloadSpec
  pub released_at : Instant
  pub absolute_deadline : Instant
  pub released_monotonic_ns : ℕ
  pub deadline_monotonic_ns : ℕ
  pub payload : P
  pub status : JobStatus
  pub deferral_count : ℕ
  pub reason_codes : List String
  pub service_started_monotonic_ns : Option ℕ
  pub completed_monotonic_ns : Option ℕ

-- A heap entry `(tier, deadline_ns, counter, job)`.
pub record Item (P : Type 0) : Type 0 where
  pub tier : ℕ
  pub deadline_ns : ℕ
  pub ticket : ℕ
  pub job : JobRequest P

pub record Scheduler (P : Type 0) : Type 0 where
  pub queue_limit : ℕ
  pub tier_a_reserve_memory_mb : ℕ
  pub mode : RuntimeMode
  pub approved_profiles : Option (List String)
  pub registry : Dict String WorkloadSpec
  pub queue : List (Item P)
  pub next_ticket : ℕ
  pub active : Dict Uuid (JobRequest P)
  pub deferred_ids : List Uuid
  pub degradation_level : ℕ
  pub overloaded : Bool
  pub reason_codes : List String
  pub opportunities : Ledger
  pub known_safe_interference_pairs : List (String × String)
  pub frozen : Bool

pub data SchedulerError : Type 0 where
  registry_frozen profile_not_approved registration_immutable unknown_workload : SchedulerError
  queue_full not_running multiplier_not_positive reason_code_required : SchedulerError
  ledger : LedgerError → SchedulerError

-- `tuple(sorted((a, b)))`
unfoldable pub sorted_pair : String → String → String × String
sorted_pair a b = elim (compare_text b a) [ Ordering.lt ↦ (b, a) | _ ↦ (a, b) ]

abbrev pub is_tier_a : CriticalityTier → Bool
is_tier_a CriticalityTier.a_immediate = true
is_tier_a _ = false

-- `known_safe_interference_pairs` as `__init__` keeps them.
abbrev pub sorted_pairs : List (String × String) → List (String × String)
sorted_pairs [] = []
sorted_pairs ((a, b) ∷ ps) = sorted_pair a b ∷ sorted_pairs ps

abbrev pub has_pair : String × String → List (String × String) → Bool
has_pair p ps = any (λ (q : String × String). str_eq p.0 q.0 && str_eq p.1 q.1) ps

module _ {P : Type 0} where
  -- Whether a heap pops the first item before the second.
  abbrev pub before : Item P → Item P → Bool
  before a b =
      ltb a.tier b.tier
      || (a.tier == b.tier
          && (ltb a.deadline_ns b.deadline_ns
              || (a.deadline_ns == b.deadline_ns && leb a.ticket b.ticket)))

  unfoldable pub push : Item P → List (Item P) → List (Item P)
  push i [] = i ∷ []
  push i (j ∷ q) = let rest = push i q in if before i j then i ∷ j ∷ q else j ∷ rest

  unfoldable pub push_all : List (Item P) → List (Item P) → List (Item P)
  push_all [] q = q
  push_all (i ∷ held) q = push_all held (push i q)

  unfoldable pub declare_overload : String → Scheduler P → Scheduler P
  declare_overload reason s = record s {
    overloaded = true;
    degradation_level = max s.degradation_level 1;
    reason_codes = add_reason reason s.reason_codes;
  }

  -- Whether an active job keeps a job of this workload from running beside it.
  abbrev pub interferes : Scheduler P → WorkloadSpec → JobRequest P → Bool
  interferes s spec active =
      (is_tier_a active.workload.tier || is_tier_a spec.tier)
      && not (
          has_pair (sorted_pair active.workload.workload_id spec.workload_id)
            s.known_safe_interference_pairs)

  abbrev pub blocked : Scheduler P → WorkloadSpec → Bool
  blocked s spec = any (λ (b : Uuid × JobRequest P). interferes s spec b.1) s.active
