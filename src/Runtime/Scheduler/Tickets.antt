-- ===== src/Runtime/Scheduler/Tickets.antt =====
-- The tickets of the queued items (src/sentinel_edge/runtime/scheduler.py).
use sentinel_edge.Prelude.{
  Bool-cases, nat_eq, ℕ, ◌+◌, ◌<◌, String, ◌≡◌, inl, inr, true, false, List, [], ◌∷◌, arith, ok,
}
use sentinel_edge.Domain.Kinds.{Uuid, Instant}
use sentinel_edge.Runtime.Scheduler.{JobRequest, Item, Scheduler, before, push}
use sentinel_edge.Runtime.Scheduler.Admission.{Submission, submit, item_of}
use sentinel_edge.Runtime.Scheduler.Remaining.{IsBefore, Ascending}

module _ {P : Type 0} where
  abbrev HasTicketsBelow : ℕ → List (Item P) → Type 0
  HasTicketsBelow n [] = Unit
  HasTicketsBelow n (i ∷ q) = (i.ticket < n) × HasTicketsBelow n q

  HasTicketsBelow-suc :
      (n : ℕ) (q : List (Item P)) → HasTicketsBelow n q → HasTicketsBelow (n + 1) q
  HasTicketsBelow-suc n [] h = tt
  HasTicketsBelow-suc n (i ∷ q) (h, hs) = (omega arith, HasTicketsBelow-suc n q hs)

  push-HasTicketsBelow :
      (n : ℕ) (i : Item P) (q : List (Item P))
      → i.ticket < n
      → HasTicketsBelow n q
      → HasTicketsBelow n (push i q)
  unfolding push
  push-HasTicketsBelow n i [] h k = (h, tt)
  push-HasTicketsBelow n i (j ∷ q) h (k, ks) = elim (Bool-cases (before i j)) [
    | inl b ↦ rw b (h, (k, ks))
    | inr b ↦ rw b (k, push-HasTicketsBelow n i q h ks)
  ]

  before_asym : (i j : Item P) → j.ticket < i.ticket → before i j ≡ true → before j i ≡ false
  before_asym i j h k = ground arith

  before_trans_not : (i j k : Item P) → before i j ≡ true → before k j ≡ false → before k i ≡ false
  before_trans_not i j k h l = ground arith

  IsBefore-trans :
      (i j : Item P) (q : List (Item P)) → before i j ≡ true → IsBefore j q → IsBefore i q
  IsBefore-trans i j [] h l = tt
  IsBefore-trans i j (k ∷ q) h l = (before_trans_not i j k h l.0, IsBefore-trans i j q h l.1)

  push-IsBefore :
      (i j : Item P) (q : List (Item P)) → before i j ≡ false → IsBefore j q → IsBefore j (push i q)
  unfolding push
  push-IsBefore i j [] h l = (h, tt)
  push-IsBefore i j (k ∷ q) h l = elim (Bool-cases (before i k)) [
    | inl b ↦ rw b (h, l)
    | inr b ↦ rw b (l.0, push-IsBefore i j q h l.1)
  ]

  push-Ascending :
      (i : Item P) (q : List (Item P))
      → HasTicketsBelow i.ticket q
      → Ascending q
      → Ascending (push i q)
  unfolding push
  push-Ascending i [] h k = (tt, tt)
  push-Ascending i (j ∷ q) (h, hs) (k, ks) = elim (Bool-cases (before i j)) [
    | inl b ↦ rw b ((before_asym i j h b, IsBefore-trans i j q b k), (k, ks))
    | inr b ↦ rw b (push-IsBefore i j q b k, push-Ascending i q hs ks)
  ]

  submit-pushed :
      (u : Uuid → String → Instant → Uuid) (b : Submission P) (s t : Scheduler P)
      (job : JobRequest P)
      → submit u b s ≡ ok (job, t)
      → (t.queue ≡ push (item_of u job s.next_ticket) s.queue) × (t.next_ticket ≡ s.next_ticket + 1)
  unfolding submit
  submit-pushed u b s t job h = ground arith

  -- A submission that succeeds on a queue in priority order, without ties and with earlier tickets
  -- only, leaves such a queue.
  submit-Ascending :
      (u : Uuid → String → Instant → Uuid) (b : Submission P) (s t : Scheduler P)
      (job : JobRequest P)
      → submit u b s ≡ ok (job, t)
      → Ascending s.queue
      → HasTicketsBelow s.next_ticket s.queue
      → Ascending t.queue × HasTicketsBelow t.next_ticket t.queue
  submit-Ascending u b s t job h k below =
      let i = item_of u job s.next_ticket in
      let (queue, next) = submit-pushed u b s t job h in
      rw queue (
        rw next (
          push-Ascending i s.queue below k,
          push-HasTicketsBelow (s.next_ticket + 1) i s.queue (omega arith)
              (HasTicketsBelow-suc s.next_ticket s.queue below),
        ))
