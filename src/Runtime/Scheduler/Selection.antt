-- ===== src/Runtime/Scheduler/Selection.antt =====
-- Which job `dispatch` selects (src/sentinel_edge/runtime/scheduler.py).
use sentinel_edge.Prelude.{
  Option-cases, first, Result-cases, nat_eq, insert, ℕ, ◌≡◌, inl, inr, Option, none, some, List, [],
  ◌∷◌, arith, ok,
}
use sentinel_edge.Domain.Kinds.{JobStatus}
use sentinel_edge.Runtime.Scheduler.{Resources, JobRequest, Item, Scheduler, push_all}
use sentinel_edge.Runtime.Scheduler.Dispatch.{Scan, scan, start, started, dispatch}
use sentinel_edge.Runtime.Scheduler.Safety.{
  IsAdmitted, admits, scan-SameActive, scan-first, admissible-IsAdmitted,
}

module _ {P : Type 0} where
  abbrev pub started_item : ℕ → Option (Item P) → Option (JobRequest P)
  started_item now none = none
  started_item now (some i) = some (started now i.job)

  -- What becomes of the scan's end.
  pub record Starts (now : ℕ) (c : Scan P) (o : Option (JobRequest P)) (t : Scheduler P)
      : Type 0 where
    pub selected : o ≡ elim c.selected [ none ↦ none | some j ↦ some (started now j) ]
    pub queue : t.queue ≡ push_all c.held c.rest
    pub active : t.active ≡ elim c.selected [
      | none ↦ c.scheduler.active
      | some j ↦ insert j.job_id (started now j) c.scheduler.active
    ]
    pub limit : t.queue_limit ≡ c.scheduler.queue_limit
    pub ticket : t.next_ticket ≡ c.scheduler.next_ticket

  start-Starts :
      (now : ℕ) (c : Scan P) (o : Option (JobRequest P)) (t : Scheduler P)
      → start now c ≡ ok (o, t)
      → Starts now c o t
  unfolding start
  start-Starts now c o t h = ground arith

  pub dispatch-Starts :
      (r : Resources) (now : ℕ) (s t : Scheduler P) (o : Option (JobRequest P))
      → dispatch r now s ≡ ok (o, t)
      → (c : Scan P) × (scan r now s.queue s ≡ ok c) × Starts now c o t
  unfolding dispatch
  dispatch-Starts r now s t o h = elim (Result-cases (scan r now s.queue s)) [
    | inl (c, k) ↦ (c, k, start-Starts now c o t ground arith)
    | inr (x, k) ↦ absurd ground arith
  ]

  -- A dispatch that succeeds starts the first job of the queue, in its order, that admission lets
  -- past in the scheduler's state at the call, and starts none when there is no such job.
  pub dispatch-first :
      (r : Resources) (now : ℕ) (s t : Scheduler P) (o : Option (JobRequest P))
      → dispatch r now s ≡ ok (o, t)
      → o ≡ started_item now (first (admits r now s) s.queue)
  dispatch-first r now s t o h =
      let (c, k, e) = dispatch-Starts r now s t o h in
      ground (arith, scan-first r now s.queue s c k)

  first-IsAdmitted :
      (r : Resources) (now : ℕ) (s : Scheduler P) (q : List (Item P)) (i : Item P)
      → first (admits r now s) q ≡ some i
      → IsAdmitted r now s i.job
  first-IsAdmitted r now s [] i h = ground arith
  first-IsAdmitted r now s (k ∷ q) i h =
      ground (arith, first-IsAdmitted r now s q i, admissible-IsAdmitted k.job r now s)

  -- The job that a dispatch starts fits in the available memory, has no unsafe neighbour among
  -- the active jobs, and leaves the tier-A reserve free unless it is itself of tier A, is due for a
  -- forced scan, or is of tier B or C and past its longest deferral. It is running from the call's
  -- time on and is active under its identity.
  pub dispatch-IsAdmitted :
      (r : Resources) (now : ℕ) (s t : Scheduler P) (job : JobRequest P)
      → dispatch r now s ≡ ok (some job, t)
      → IsAdmitted r now s job
        × (job.status ≡ JobStatus.running)
        × (job.service_started_monotonic_ns ≡ some now)
        × (t.active ≡ insert job.job_id job s.active)
  dispatch-IsAdmitted r now s t job h =
      let (c, k, e) = dispatch-Starts r now s t (some job) h in
      elim (Option-cases (first (admits r now s) s.queue)) [
        | inl n ↦ absurd ground (arith, dispatch-first r now s t (some job) h)
        | inr (i, n) ↦ ground (
          arith,
          scan-first r now s.queue s c k,
          first-IsAdmitted r now s s.queue i n,
          dispatch-first r now s t (some job) h,
          scan-SameActive r now s.queue s c k,
        )
      ]
