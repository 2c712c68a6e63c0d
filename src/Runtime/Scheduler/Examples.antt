-- ===== src/Runtime/Scheduler/Examples.antt =====
-- A small workload, with tests of the scheduler and its theorems at concrete inputs.
use sentinel_edge.Prelude.{
  length, first, nat_eq, string_eq, insert, ℕ, ◌+◌, ◌≤◌, String, ◌≡◌, refl, false, Option, none,
  some, [], ◌∷◌, ok, err,
}
use sentinel_edge.Domain.Kinds.{Uuid, HazardKind, CriticalityTier, RuntimeMode, JobStatus, Instant}
use sentinel_edge.Runtime.Opportunities.{offer, mark_queued, mark_deferred, mark_started, change}
use sentinel_edge.Runtime.Scheduler.{
  WorkloadSpec, Scheduler, JobRequest, Resources, push, push_all, declare_overload,
}
use sentinel_edge.Runtime.Scheduler.Admission.{
  Submission, submit, admissible, admissible_by_resources, job_of,
}
use sentinel_edge.Runtime.Scheduler.Dispatch.{scan, start, started, dispatch}
use sentinel_edge.Runtime.Scheduler.Safety.{IsAdmitted, admits}
use sentinel_edge.Runtime.Scheduler.Selection.{dispatch-first, dispatch-IsAdmitted, started_item}
use sentinel_edge.Runtime.Scheduler.Remaining.{Ascending, remaining, dropped, dispatch-remaining}
use sentinel_edge.Runtime.Scheduler.Order.{Sorted, submit-Sorted}
use sentinel_edge.Runtime.Scheduler.Totality.{AreOffered, dispatch-total}
use sentinel_edge.Runtime.Scheduler.Accounting.{count_items, count_jobs, to_list, dispatch-count}

abbrev workload : String → CriticalityTier → ℕ → WorkloadSpec
workload id tier memory_mb = record {
  workload_id = id;
  hazard = HazardKind.flood;
  tier = tier;
  period_ms = 1000;
  deadline_ms = 500;
  max_deferral_ms = 2000;
  estimated_cost_ms = 10;
  memory_mb = memory_mb;
  profile_id = "p";
  forced_scan_ms = none;
}

abbrev siren : WorkloadSpec
siren = workload "siren" CriticalityTier.a_immediate 100

abbrev survey : WorkloadSpec
survey = workload "survey" CriticalityTier.d_periodic 600

abbrev idle : Scheduler ℕ
idle = record {
  queue_limit = 4;
  tier_a_reserve_memory_mb = 128;
  mode = RuntimeMode.development;
  approved_profiles = none;
  registry = ("siren", siren) ∷ ("survey", survey) ∷ [];
  queue = [];
  next_ticket = 0;
  active = [];
  deferred_ids = [];
  degradation_level = 0;
  overloaded = false;
  reason_codes = [];
  opportunities = [];
  known_safe_interference_pairs = [];
  frozen = false;
}

abbrev opportunity_uuid : Uuid → String → Instant → Uuid
opportunity_uuid correlation_id workload_id at = correlation_id + 1000

abbrev submission : String → ℕ → Submission ℕ
submission id n = record {
  workload_id = id;
  payload = n;
  released_at = 0;
  scheduled_release_at = none;
  captured_at = none;
  correlation_id = n;
  job_id = n;
  release_ns = 0;
}

abbrev submitted : Submission ℕ → Scheduler ℕ → Scheduler ℕ
submitted b s = elim (submit opportunity_uuid b s) [ ok x ↦ x.1 | err e ↦ s ]

abbrev survey_waiting : Scheduler ℕ
survey_waiting = submitted (submission "survey" 1) idle

abbrev both_waiting : Scheduler ℕ
both_waiting = submitted (submission "siren" 2) survey_waiting

abbrev siren_job : JobRequest ℕ
siren_job = job_of opportunity_uuid (submission "siren" 2) siren 1002

siren-submitted :
    submit opportunity_uuid (submission "siren" 2) survey_waiting ≡ ok (siren_job, both_waiting)
unfolding submit offer mark_queued change push
siren-submitted = refl

submit-Sorted_example :
    Sorted both_waiting.queue
    × (length both_waiting.queue ≤ both_waiting.queue_limit)
    × (length both_waiting.queue ≡ length survey_waiting.queue + 1)
unfolding submit offer mark_queued change push
submit-Sorted_example =
    submit-Sorted opportunity_uuid (submission "siren" 2) survey_waiting both_waiting siren_job
      siren-submitted (tt, tt)

-- Too little memory for the survey beside the reserve.
abbrev scarce : Resources
scarce = record { available_memory_mb = 650; overloaded = false }

abbrev siren_running : Scheduler ℕ
siren_running = elim (dispatch scarce 1000 both_waiting) [ ok x ↦ x.1 | err e ↦ both_waiting ]

siren-dispatched :
    dispatch scarce 1000 both_waiting ≡ ok (some (started 1000 siren_job), siren_running)
unfolding submit offer mark_queued change push dispatch scan start admissible
    admissible_by_resources mark_started push_all declare_overload
siren-dispatched = refl

both_waiting-Sorted : Sorted both_waiting.queue
unfolding submit offer mark_queued change push
both_waiting-Sorted = ((refl, tt), (tt, tt))

dispatch-IsAdmitted_example :
    IsAdmitted scarce 1000 both_waiting (started 1000 siren_job)
    × ((started 1000 siren_job).status ≡ JobStatus.running)
    × ((started 1000 siren_job).service_started_monotonic_ns ≡ some 1000)
    × (siren_running.active
        ≡ insert (started 1000 siren_job).job_id (started 1000 siren_job) both_waiting.active)
dispatch-IsAdmitted_example =
    dispatch-IsAdmitted scarce 1000 both_waiting siren_running (started 1000 siren_job)
      siren-dispatched

dispatch-first_example :
    some (started 1000 siren_job)
    ≡ started_item 1000 (first (admits scarce 1000 both_waiting) both_waiting.queue)
dispatch-first_example =
    dispatch-first scarce 1000 both_waiting siren_running (some (started 1000 siren_job))
      siren-dispatched

both_waiting-Ascending : Ascending both_waiting.queue
unfolding submit offer mark_queued change push
both_waiting-Ascending = ((refl, tt), (tt, tt))

dispatch-remaining_example :
    (siren_running.queue ≡ remaining scarce 1000 both_waiting both_waiting.queue)
    × Ascending siren_running.queue
dispatch-remaining_example =
    dispatch-remaining scarce 1000 both_waiting siren_running (some (started 1000 siren_job))
      siren-dispatched both_waiting-Ascending

-- With the siren running, the survey waits.
abbrev survey_deferred : Scheduler ℕ
survey_deferred = elim (dispatch scarce 2000 siren_running) [ ok x ↦ x.1 | err e ↦ siren_running ]

survey-deferred : dispatch scarce 2000 siren_running ≡ ok (none, survey_deferred)
unfolding submit offer mark_queued change push dispatch scan start admissible
    admissible_by_resources mark_started mark_deferred push_all declare_overload
survey-deferred = refl

dispatch-count_example :
    count_items siren_job.job_id both_waiting.queue
    ≡ count_items siren_job.job_id siren_running.queue
      + count_jobs siren_job.job_id (to_list (some (started 1000 siren_job)))
      + count_items siren_job.job_id (dropped scarce 1000 both_waiting both_waiting.queue)
dispatch-count_example =
    dispatch-count scarce 1000 both_waiting siren_running (some (started 1000 siren_job))
      siren-dispatched siren_job.job_id

both_waiting-AreOffered : AreOffered both_waiting.opportunities both_waiting.queue
unfolding submit offer mark_queued change push
both_waiting-AreOffered = (refl, (refl, tt))

dispatch-total_example :
    (o : Option (JobRequest ℕ)) × (t : Scheduler ℕ) × (dispatch scarce 1000 both_waiting
      ≡ ok (o, t))
dispatch-total_example = dispatch-total scarce 1000 both_waiting both_waiting-AreOffered
