-- ===== src/Runtime/Scheduler/Accounting.antt =====
-- Where the jobs of the queue go (src/sentinel_edge/runtime/scheduler.py).
use sentinel_edge.Prelude.{
  ◌==◌, length, keep, nat_eq, ℕ, ◌+◌, ◌≡◌, Option, none, some, List, [], ◌∷◌, arith, ok,
}
use sentinel_edge.Domain.Kinds.{Uuid}
use sentinel_edge.Runtime.Scheduler.{Resources, JobRequest, Item, Scheduler, push, push_all}
use sentinel_edge.Runtime.Scheduler.Admission.{admissible}
use sentinel_edge.Runtime.Scheduler.Dispatch.{Scan, scan, dispatch}
use sentinel_edge.Runtime.Scheduler.Steps.{ScanStep, scan-ScanStep, after_item}
use sentinel_edge.Runtime.Scheduler.Selection.{dispatch-Starts}
use sentinel_edge.Runtime.Scheduler.Safety.{after_item-SameActive}
use sentinel_edge.Runtime.Scheduler.Remaining.{dropped, dropped-SameActive}

module _ {P : Type 0} where
  -- How many of the jobs have an identity.
  abbrev pub count_jobs : Uuid → List (JobRequest P) → ℕ
  count_jobs id jobs = length (keep (λ (j : JobRequest P). j.job_id == id) jobs)

  abbrev pub count_items : Uuid → List (Item P) → ℕ
  count_items id q = length (keep (λ (i : Item P). i.job.job_id == id) q)

  abbrev pub to_list : Option (JobRequest P) → List (JobRequest P)
  to_list none = []
  to_list (some j) = j ∷ []

  count-push :
      (id : Uuid) (i : Item P) (q : List (Item P))
      → count_items id (push i q) ≡ count_items id (i ∷ []) + count_items id q
  unfolding push
  count-push id i [] = ground arith
  count-push id i (j ∷ q) = ground (arith, count-push id i q)

  count-push_all :
      (id : Uuid) (held q : List (Item P))
      → count_items id (push_all held q) ≡ count_items id held + count_items id q
  unfolding push_all
  count-push_all id [] q = omega arith
  count-push_all id (i ∷ held) q =
      ground (arith, count-push_all id held (push i q), count-push id i q)

  admissible-job_id :
      (job : JobRequest P) (r : Resources) (now : ℕ) (s : Scheduler P)
      → (admissible job r now s).1.job_id ≡ job.job_id
  unfolding admissible
  admissible-job_id job r now s = ground arith

  scan-count :
      (id : Uuid) (r : Resources) (now : ℕ) (q : List (Item P)) (s : Scheduler P) (c : Scan P)
      → scan r now q s ≡ ok c
      → count_items id q
        ≡ count_items id c.held
          + count_items id c.rest
          + count_jobs id (to_list c.selected)
          + count_jobs id c.rejected
  unfolding scan
  scan-count id r now [] s c h = ground arith
  scan-count id r now (i ∷ q) s c h = elim (scan-ScanStep r now i q s c h) [
    | ScanStep.stop v e ↦ ground (arith, admissible-job_id i.job r now s)
    | ScanStep.pass led ids d v e k ↦ ground (
      arith,
      scan-count id r now q (after_item r now i s led ids) d e,
      admissible-job_id i.job r now s,
    )
    | ScanStep.drop led ids reason d v e k ↦ ground (
      arith,
      scan-count id r now q (after_item r now i s led ids) d e,
      admissible-job_id i.job r now s,
    )
  ]

  scan-dropped :
      (id : Uuid) (r : Resources) (now : ℕ) (q : List (Item P)) (s : Scheduler P) (c : Scan P)
      → scan r now q s ≡ ok c
      → count_jobs id c.rejected ≡ count_items id (dropped r now s q)
  unfolding scan dropped
  scan-dropped id r now [] s c h = ground arith
  scan-dropped id r now (i ∷ q) s c h = elim (scan-ScanStep r now i q s c h) [
    | ScanStep.stop v e ↦ ground arith
    | ScanStep.pass led ids d v e k ↦
        let t = after_item r now i s led ids in
        ground (
          arith,
          scan-dropped id r now q t d e,
          dropped-SameActive r now s t q (after_item-SameActive r now i s led ids),
        )
    | ScanStep.drop led ids reason d v e k ↦
        let t = after_item r now i s led ids in
        ground (
          arith,
          scan-dropped id r now q t d e,
          dropped-SameActive r now s t q (after_item-SameActive r now i s led ids),
          admissible-job_id i.job r now s,
        )
  ]

  -- A dispatch that succeeds loses no job: as many queued jobs have an identity as afterwards are
  -- queued, are started by the call, or were rejected by admission in the scheduler's state at the
  -- call, ahead of the first job that it admits.
  pub dispatch-count :
      (r : Resources) (now : ℕ) (s t : Scheduler P) (o : Option (JobRequest P))
      → dispatch r now s ≡ ok (o, t)
      → (id : Uuid)
      → count_items id s.queue
        ≡ count_items id t.queue
          + count_jobs id (to_list o)
          + count_items id (dropped r now s s.queue)
  dispatch-count r now s t o h id =
      let (c, k, e) = dispatch-Starts r now s t o h in
      ground (
        arith,
        scan-count id r now s.queue s c k,
        scan-dropped id r now s.queue s c k,
        count-push_all id c.held c.rest,
      )
