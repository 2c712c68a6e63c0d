-- ===== src/Runtime/Scheduler/Dispatch.antt =====
-- `WorkloadScheduler.dispatch` of src/sentinel_edge/runtime/scheduler.py.
use sentinel_edge.Prelude.{
  ◌==◌, if◌then◌else◌, keep, any, Result, nat_eq, insert, ℕ, ◌+◌, String, not, Option, none, some,
  List, [], ◌∷◌, ok, err,
}
use sentinel_edge.Domain.Kinds.{Uuid, JobStatus, OpportunityDisposition}
use sentinel_edge.Runtime.Opportunities.{add_reason, mark_deferred, mark_started, mark_terminal}
use sentinel_edge.Runtime.Scheduler.{
  Resources, JobRequest, Item, Scheduler, SchedulerError, push_all, ledger,
}
use sentinel_edge.Runtime.Scheduler.Admission.{admit, defer, reject, admissible}

abbrev without : Uuid → List Uuid → List Uuid
without id ids = keep (λ j. not (j == id)) ids

abbrev pub with_id : Uuid → List Uuid → List Uuid
with_id id ids = if any (λ j. j == id) ids then ids else id ∷ ids

-- The end of the loop: the items held back, the items not reached and the selected job.
pub record Scan (P : Type 0) : Type 0 where
  pub held : List (Item P)
  pub rest : List (Item P)
  pub selected : Option (JobRequest P)
  pub rejected : List (JobRequest P)
  pub scheduler : Scheduler P

module _ {P : Type 0} where
  abbrev pub hold : Item P → Scan P → Scan P
  hold i c = record c { held = i ∷ c.held }

  abbrev pub drop_job : JobRequest P → Scan P → Scan P
  drop_job j c = record c { rejected = j ∷ c.rejected }

  abbrev pub held_job : JobRequest P → JobRequest P
  held_job job = record job {
    deferral_count = job.deferral_count + 1;
    status = JobStatus.deferred;
    reason_codes = add_reason "resource_admission_deferred" job.reason_codes;
  }

  abbrev pub rejected_job : String → JobRequest P → JobRequest P
  rejected_job reason job = record job {
    status = JobStatus.rejected;
    reason_codes = add_reason reason job.reason_codes;
  }

  abbrev pub map_scan :
      (Scan P → Scan P) → Result SchedulerError (Scan P) → Result SchedulerError (Scan P)
  map_scan f (ok c) = ok (f c)
  map_scan f (err x) = err x

  -- The loop over the popped items. `rejected` collects the jobs that it drops.
  unfoldable pub scan : Resources → ℕ → List (Item P) → Scheduler P → Result SchedulerError (Scan P)
  scan resources now_ns [] s =
      ok (record { held = []; rest = []; selected = none; rejected = []; scheduler = s })
  scan resources now_ns (i ∷ q) s =
      let (verdict, job, s') = admissible i.job resources now_ns s in
      elim verdict [
        | admit ↦
            ok (record { held = []; rest = q; selected = some job; rejected = []; scheduler = s' })
        | reject reason ↦
            elim (mark_terminal job.opportunity_id OpportunityDisposition.skipped now_ns
              (some reason) s'.opportunities) [
                | err x ↦ err (ledger x)
                | ok opportunities ↦
                    map_scan (drop_job (rejected_job reason job))
                      (scan resources now_ns q (record s' { opportunities = opportunities }))
              ]
        | defer ↦
            elim (mark_deferred job.opportunity_id "resource_admission_deferred" s'.opportunities) [
              | err x ↦ err (ledger x)
              | ok opportunities ↦ map_scan (hold (record i { job = held_job job })) (
                  scan resources now_ns q (record s' {
                    opportunities = opportunities;
                    deferred_ids = with_id job.job_id s'.deferred_ids;
                  }))
            ]
      ]

  abbrev pub started : ℕ → JobRequest P → JobRequest P
  started now_ns job = record job {
    status = JobStatus.running;
    service_started_monotonic_ns = some now_ns;
  }

  -- The selected job becomes active; the held items are pushed back.
  unfoldable pub start : ℕ → Scan P → Result SchedulerError (Option (JobRequest P) × Scheduler P)
  start now_ns c =
      let s = record (c.scheduler) { queue = push_all c.held c.rest } in
      elim c.selected [
        | none ↦ ok (none, s)
        | some job ↦ elim (mark_started job.opportunity_id now_ns s.opportunities) [
          | err x ↦ err (ledger x)
          | ok opportunities ↦ ok (
            some (started now_ns job),
            record s {
              deferred_ids = without job.job_id s.deferred_ids;
              active = insert job.job_id (started now_ns job) s.active;
              opportunities = opportunities;
            },
          )
        ]
      ]

  unfoldable pub dispatch :
      Resources → ℕ → Scheduler P → Result SchedulerError (Option (JobRequest P) × Scheduler P)
  dispatch resources now_ns s = elim (scan resources now_ns s.queue s) [
    | err x ↦ err x
    | ok c ↦ start now_ns c
  ]
