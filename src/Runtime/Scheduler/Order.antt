-- ===== src/Runtime/Scheduler/Order.antt =====
-- The queue's order and its bound (src/sentinel_edge/runtime/scheduler.py).
use sentinel_edge.Prelude.{
  length, All, ◌+◌, ◌≤◌, ◌<◌, String, ◌≡◌, refl, true, false, List, [], ◌∷◌, arith, ok,
}
use sentinel_edge.Domain.Kinds.{Uuid, Instant}
use sentinel_edge.Runtime.Scheduler.{JobRequest, Item, Scheduler, before, push}
use sentinel_edge.Runtime.Scheduler.Admission.{Submission, submit, item_of}

module _ {P : Type 0} where
  abbrev pub Follows : Item P → List (Item P) → Type 0
  Follows i q = All (λ (k : Item P). before i k ≡ true) q

  abbrev pub Sorted : List (Item P) → Type 0
  Sorted [] = Unit
  Sorted (i ∷ q) = Follows i q × Sorted q

  before_total : (a b : Item P) → before a b ≡ false → before b a ≡ true
  before_total a b h = ground arith

  before_trans : (a b c : Item P) → before a b ≡ true → before b c ≡ true → before a c ≡ true
  before_trans a b c h k = ground arith

  Follows-trans : (a b : Item P) (q : List (Item P)) → before a b ≡ true → Follows b q → Follows a q
  Follows-trans a b [] h k = tt
  Follows-trans a b (c ∷ q) h k = (before_trans a b c h k.0, Follows-trans a b q h k.1)

  Follows-push :
      (a i : Item P) (q : List (Item P)) → before a i ≡ true → Follows a q → Follows a (push i q)
  unfolding push
  Follows-push a i [] h k = (h, tt)
  Follows-push a i (j ∷ q) h k = ground (arith, Follows-push a i q h k.1)

  pub push-Sorted : (i : Item P) (q : List (Item P)) → Sorted q → Sorted (push i q)
  unfolding push
  push-Sorted i [] h = (tt, tt)
  push-Sorted i (j ∷ q) h =
      ground (arith, push-Sorted i q h.1, Follows-push j i q, before_total i j, Follows-trans i j q)

  length-push : (i : Item P) (q : List (Item P)) → length (push i q) ≡ length q + 1
  unfolding push
  length-push i [] = refl
  length-push i (j ∷ q) = ground (arith, length-push i q)

  pub submit-queue :
      (u : Uuid → String → Instant → Uuid) (b : Submission P) (s t : Scheduler P)
      (job : JobRequest P)
      → submit u b s ≡ ok (job, t)
      → (t.queue ≡ push (item_of u job s.next_ticket) s.queue)
        × (t.queue_limit ≡ s.queue_limit)
        × (length s.queue < s.queue_limit)
        × (job.job_id ≡ b.job_id)
  unfolding submit
  submit-queue u b s t job h = ground arith

  -- A submission that succeeds keeps the queue in priority order and within its limit, and makes
  -- it longer by one.
  pub submit-Sorted :
      (u : Uuid → String → Instant → Uuid) (b : Submission P) (s t : Scheduler P)
      (job : JobRequest P)
      → submit u b s ≡ ok (job, t)
      → Sorted s.queue
      → Sorted t.queue × (length t.queue ≤ t.queue_limit) × (length t.queue ≡ length s.queue + 1)
  submit-Sorted u b s t job h k =
      let i = item_of u job s.next_ticket in
      ground (arith, submit-queue u b s t job h, push-Sorted i s.queue k, length-push i s.queue)
