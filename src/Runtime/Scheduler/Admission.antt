-- ===== src/Runtime/Scheduler/Admission.antt =====
-- Registration, submission, admission and completion (src/sentinel_edge/runtime/scheduler.py).
-- The source divides the nanoseconds by 1,000,000 to a floating-point `elapsed_ms`. Its tests are
-- here on the nanoseconds themselves: the quotient is rounded, which can change a test only for spans
-- of more than about fifty days.
use Prim.Native.Nat.{max}
use sentinel_edge.Prelude.{
  ltb, leb, ◌==◌, if◌then◌else◌, or_default, length, Result, is_blank, nat_eq, string_eq, lookup,
  insert, erase, has, ℕ, ◌+◌, ◌*◌, String, Bool, true, false, not, ◌&&◌, ◌||◌, Option, none, some,
  [], ok, err,
}
use sentinel_edge.Domain.Kinds.{
  Uuid, Instant, JobStatus, RuntimeMode, OpportunityDisposition, tier_value,
}
use sentinel_edge.Runtime.Opportunities.{add_reason, offer, mark_queued, mark_terminal}
use sentinel_edge.Runtime.Scheduler.{
  WorkloadSpec, Resources, JobRequest, Item, Scheduler, SchedulerError, push, declare_overload,
  blocked, is_tier_a, registry_frozen, profile_not_approved, registration_immutable,
  unknown_workload, queue_full, not_running, multiplier_not_positive, reason_code_required, ledger,
}

-- The pair that `_admissible` returns: `(True, None)`, `(False, None)` or `(False, reason)`.
pub data Verdict : Type 0 where
  admit defer : Verdict
  reject : String → Verdict

abbrev is_immutable : RuntimeMode → Bool
is_immutable RuntimeMode.benchmark = true
is_immutable RuntimeMode.judge = true
is_immutable _ = false

abbrev pub elapsed : ℕ → ℕ → ℕ → Bool
elapsed released_ns ms now_ns = leb (released_ns + ms * 1000000) now_ns

abbrev pub forced_scan_due : Option ℕ → ℕ → ℕ → Bool
forced_scan_due none released_ns now_ns = false
forced_scan_due (some ms) released_ns now_ns = not (ms == 0) && elapsed released_ns ms now_ns

abbrev is_running : JobStatus → Bool
is_running JobStatus.running = true
is_running _ = false

module _ {P : Type 0} where
  -- `same` compares two specifications field by field.
  unfoldable pub register :
      (same : WorkloadSpec → WorkloadSpec → Bool)
      → WorkloadSpec
      → Scheduler P
      → Result SchedulerError (Scheduler P)
  register same spec s =
      if s.frozen
      then err registry_frozen
      else if elim s.approved_profiles [ none ↦ false | some ids ↦ not (has spec.profile_id ids) ]
      then err profile_not_approved
      else if elim (lookup spec.workload_id s.registry) [
        | none ↦ false
        | some old ↦ not (same old spec)
      ]
      then err registration_immutable
      else ok (record s { registry = insert spec.workload_id spec s.registry })

  unfoldable pub freeze : Scheduler P → Scheduler P
  freeze s = record s { frozen = true }

  -- `positive` is whether the multiplier is finite and positive, `scaled` the rounded quotient of
  -- the period by it, and `overload_text` prefixes `cadence_reallocated:` to the stripped reason.
  unfoldable pub reallocate_cadence :
      (positive : Bool)
      → (scaled : ℕ → ℕ) → (overload_text : String → String) → String
      → String
      → Scheduler P
      → Result SchedulerError (WorkloadSpec × Scheduler P)
  reallocate_cadence positive scaled overload_text workload_id reason_code s =
      if s.frozen then err registry_frozen else elim (lookup workload_id s.registry) [
        | none ↦ err unknown_workload
        | some current ↦
            let updated = record current { period_ms = max 1 (scaled current.period_ms) } in
            if not positive
            then err multiplier_not_positive
            else if is_blank reason_code
            then err reason_code_required
            else ok (
              updated,
              declare_overload (overload_text reason_code)
                  (record s { registry = insert workload_id updated s.registry }),
            )
      ]

-- The arguments of `submit`, with the release time, the clock's reading and the fresh identities.
pub record Submission (P : Type 0) : Type 0 where
  pub workload_id : String
  pub payload : P
  pub released_at : Instant
  pub scheduled_release_at : Option Instant
  pub captured_at : Option Instant
  pub correlation_id : Uuid
  pub job_id : Uuid
  pub release_ns : ℕ

module _ {P : Type 0} (opportunity_uuid : Uuid → String → Instant → Uuid) where
  abbrev pub job_of : Submission P → WorkloadSpec → Uuid → JobRequest P
  job_of b spec opportunity_id = record {
    job_id = b.job_id;
    opportunity_id = opportunity_id;
    correlation_id = b.correlation_id;
    workload = spec;
    released_at = b.released_at;
    absolute_deadline = b.released_at + spec.deadline_ms * 1000;
    released_monotonic_ns = b.release_ns;
    deadline_monotonic_ns = b.release_ns + spec.deadline_ms * 1000000;
    payload = b.payload;
    status = JobStatus.queued;
    deferral_count = 0;
    reason_codes = [];
    service_started_monotonic_ns = none;
    completed_monotonic_ns = none;
  }

  abbrev pub item_of : JobRequest P → ℕ → Item P
  item_of job ticket = record {
    tier = tier_value job.workload.tier;
    deadline_ns = job.deadline_monotonic_ns;
    ticket = ticket;
    job = job;
  }

  unfoldable pub submit :
      Submission P → Scheduler P → Result SchedulerError (JobRequest P × Scheduler P)
  submit b s = elim (lookup b.workload_id s.registry) [
    | none ↦ err unknown_workload
    | some spec ↦
        let (opportunity, offered) =
          offer opportunity_uuid spec.workload_id spec.hazard
            (or_default b.scheduled_release_at b.released_at) b.captured_at b.correlation_id
            s.opportunities in
        let job = job_of b spec opportunity.opportunity_id in
        let marked =
          mark_queued job.opportunity_id b.released_at b.release_ns job.deadline_monotonic_ns
            offered in
        if leb s.queue_limit (length s.queue) then err queue_full else elim marked [
          | err x ↦ err (ledger x)
          | ok opportunities ↦ ok (
            job,
            record s {
              frozen = s.frozen || is_immutable s.mode;
              opportunities = opportunities;
              queue = push (item_of job s.next_ticket) s.queue;
              next_ticket = s.next_ticket + 1;
            },
          )
        ]
  ]

module _ {P : Type 0} where
  -- `_admissible` past the test for interference.
  unfoldable pub admissible_by_resources :
      JobRequest P → Resources → ℕ → Scheduler P → Verdict × Scheduler P
  admissible_by_resources job resources now_ns s =
      let spec = job.workload in
      let expired = elapsed job.released_monotonic_ns spec.max_deferral_ms now_ns in
      let missed = ltb job.deadline_monotonic_ns now_ns in
      let urgent = λ (tier : ℕ). leb (tier_value spec.tier) tier in
      if ltb resources.available_memory_mb spec.memory_mb
      then (
        if expired then reject "max_deferral_exceeded_insufficient_memory" else defer,
        declare_overload "insufficient_memory" s,
      )
      else if forced_scan_due spec.forced_scan_ms job.released_monotonic_ns now_ns
      then (admit, declare_overload "forced_scan_due" s)
      else if is_tier_a spec.tier
      then (admit, if missed then declare_overload "tier_a_deadline_miss" s else s)
      else if ltb resources.available_memory_mb (spec.memory_mb + s.tier_a_reserve_memory_mb)
      then (if expired
          then (
            if urgent 2 then admit else reject "max_deferral_exceeded_reserve",
            declare_overload "tier_a_reserve_conflict" s,
          )
          else (defer, s))
      else if resources.overloaded
      then (
        if urgent 1
            then admit
            else if expired && urgent 2
            then admit
            else if expired
            then reject "max_deferral_exceeded_overload"
            else defer,
        declare_overload "node_overload" s,
      )
      else (admit, if missed then declare_overload "deadline_miss" s else s)

  -- `_admissible`, the job and the scheduler after it.
  unfoldable pub admissible :
      JobRequest P → Resources → ℕ → Scheduler P → Verdict × JobRequest P × Scheduler P
  admissible job resources now_ns s =
      let (verdict, s') = admissible_by_resources job resources now_ns s in
      if blocked s job.workload
      then (
        defer,
        record job {
          reason_codes = add_reason "unknown_tier_a_interference_serialized" job.reason_codes;
        },
        s,
      )
      else (verdict, job, s')

  unfoldable pub complete :
      JobRequest P → ℕ → Scheduler P → Result SchedulerError (JobRequest P × Scheduler P)
  complete job now_ns s =
      let done = record job {
        status = JobStatus.completed;
        completed_monotonic_ns = some now_ns;
      } in
      let marked =
        mark_terminal job.opportunity_id OpportunityDisposition.processed now_ns none
          s.opportunities in
      if not (is_running job.status) then err not_running else elim marked [
        | err x ↦ err (ledger x)
        | ok opportunities ↦
            ok
              (done, record s { active = erase job.job_id s.active; opportunities = opportunities })
      ]
