-- ===== src/Runtime/Scheduler/Remaining.antt =====
-- The queue that `dispatch` leaves (src/sentinel_edge/runtime/scheduler.py).
use sentinel_edge.Prelude.{
  All, nat_eq, ℕ, ◌≡◌, refl, sym, ap, subst, ◌∙◌, true, false, Option, List, [], ◌∷◌, ◌++◌, arith,
  ok,
}
use sentinel_edge.Runtime.Scheduler.{Resources, JobRequest, Item, Scheduler, before, push, push_all}
use sentinel_edge.Runtime.Scheduler.Admission.{Verdict, admit, defer, reject, admissible}
use sentinel_edge.Runtime.Scheduler.Dispatch.{Scan, scan, held_job, dispatch}
use sentinel_edge.Runtime.Scheduler.Steps.{ScanStep, scan-ScanStep, after_item}
use sentinel_edge.Runtime.Scheduler.Safety.{
  SameActive, admissible-job, admissible-verdict, after_item-SameActive,
}
use sentinel_edge.Runtime.Scheduler.Selection.{dispatch-Starts}

abbrev pub by_verdict : {A : Type 0} → Verdict → A → A → A → A
by_verdict admit a d r = a
by_verdict defer a d r = d
by_verdict (reject reason) a d r = r

module _ {P : Type 0} where
  abbrev pub held_item : Resources → ℕ → Scheduler P → Item P → Item P
  held_item r now s i = record i { job = held_job (admissible i.job r now s).1 }

  -- The queue without the first item that is admitted and without the items before it that are
  -- rejected; the items before it that are deferred stand in their places.
  unfoldable pub remaining : Resources → ℕ → Scheduler P → List (Item P) → List (Item P)
  remaining r now s [] = []
  remaining r now s (i ∷ q) =
      let rest = remaining r now s q in
      by_verdict (admissible i.job r now s).0 q (held_item r now s i ∷ rest) rest

  -- The items that are rejected before the first one that is admitted.
  unfoldable pub dropped : Resources → ℕ → Scheduler P → List (Item P) → List (Item P)
  dropped r now s [] = []
  dropped r now s (i ∷ q) =
      let rest = dropped r now s q in by_verdict (admissible i.job r now s).0 [] rest (i ∷ rest)

  remaining-SameActive :
      (r : Resources) (now : ℕ) (s t : Scheduler P) (q : List (Item P))
      → SameActive s t
      → remaining r now t q ≡ remaining r now s q
  unfolding remaining
  remaining-SameActive r now s t [] h = refl
  remaining-SameActive r now s t (i ∷ q) h =
      ap
        (λ (v : Verdict).
          by_verdict v q (held_item r now t i ∷ remaining r now t q) (remaining r now t q))
        (admissible-verdict i.job r now s t h)
      ∙ ap
          (λ (j : JobRequest P).
            by_verdict (admissible i.job r now s).0 q
              ((record i { job = held_job j }) ∷ remaining r now t q) (remaining r now t q))
          (admissible-job i.job r now s t h)
      ∙ ap
          (λ (l : List (Item P)).
            by_verdict (admissible i.job r now s).0 q (held_item r now s i ∷ l) l)
          (remaining-SameActive r now s t q h)

  pub dropped-SameActive :
      (r : Resources) (now : ℕ) (s t : Scheduler P) (q : List (Item P))
      → SameActive s t
      → dropped r now t q ≡ dropped r now s q
  unfolding dropped
  dropped-SameActive r now s t [] h = refl
  dropped-SameActive r now s t (i ∷ q) h =
      ap (λ (v : Verdict). by_verdict v [] (dropped r now t q) (i ∷ dropped r now t q))
        (admissible-verdict i.job r now s t h)
      ∙ ap (λ (l : List (Item P)). by_verdict (admissible i.job r now s).0 [] l (i ∷ l))
          (dropped-SameActive r now s t q h)

  scan-remaining :
      (r : Resources) (now : ℕ) (q : List (Item P)) (s : Scheduler P) (c : Scan P)
      → scan r now q s ≡ ok c
      → c.held ++ c.rest ≡ remaining r now s q
  unfolding scan remaining
  scan-remaining r now [] s c h = ground arith
  scan-remaining r now (i ∷ q) s c h = elim (scan-ScanStep r now i q s c h) [
    | ScanStep.stop v e ↦ ground arith
    | ScanStep.pass led ids d v e k ↦
        let t = after_item r now i s led ids in
        ground (
          arith,
          scan-remaining r now q t d e,
          remaining-SameActive r now s t q (after_item-SameActive r now i s led ids),
        )
    | ScanStep.drop led ids reason d v e k ↦
        let t = after_item r now i s led ids in
        ground (
          arith,
          scan-remaining r now q t d e,
          remaining-SameActive r now s t q (after_item-SameActive r now i s led ids),
        )
  ]

  -- Every item comes after the first in priority order, and ties are excluded.
  abbrev pub IsBefore : Item P → List (Item P) → Type 0
  IsBefore i q = All (λ (k : Item P). before k i ≡ false) q

  abbrev pub Ascending : List (Item P) → Type 0
  Ascending [] = Unit
  Ascending (i ∷ q) = IsBefore i q × Ascending q

  before_other : (a b : Item P) → before b a ≡ false → before a b ≡ true
  before_other a b h = ground arith

  push-front : (i : Item P) (q : List (Item P)) → IsBefore i q → push i q ≡ i ∷ q
  unfolding push
  push-front i [] h = refl
  push-front i (j ∷ q) h = ground (arith, before_other i j h.0)

  push_all-behind :
      (i : Item P) (held q : List (Item P))
      → IsBefore i held
      → push_all held (i ∷ q) ≡ i ∷ push_all held q
  unfolding push_all push
  push_all-behind i [] q h = refl
  push_all-behind i (k ∷ held) q h =
      let there : push k (i ∷ q) ≡ i ∷ push k q = ground (arith, h.0) in
      ap (push_all held) there ∙ push_all-behind i held (push k q) h.1

  IsBefore-left : (i : Item P) (p q : List (Item P)) → IsBefore i (p ++ q) → IsBefore i p
  IsBefore-left i [] q h = tt
  IsBefore-left i (k ∷ p) q h = (h.0, IsBefore-left i p q h.1)

  IsBefore-right : (i : Item P) (p q : List (Item P)) → IsBefore i (p ++ q) → IsBefore i q
  IsBefore-right i [] q h = h
  IsBefore-right i (k ∷ p) q h = IsBefore-right i p q h.1

  push_all-front : (held q : List (Item P)) → Ascending (held ++ q) → push_all held q ≡ held ++ q
  unfolding push_all
  push_all-front [] q h = refl
  push_all-front (i ∷ held) q h =
      ap (push_all held) (push-front i q (IsBefore-right i held q h.0))
      ∙ push_all-behind i held q (IsBefore-left i held q h.0)
      ∙ ap (λ (l : List (Item P)). i ∷ l) (push_all-front held q h.1)

  by_verdict-keeps :
      (K : List (Item P) → Type 0) (v : Verdict) (a d r : List (Item P))
      → K a
      → K d
      → K r
      → K (by_verdict v a d r)
  by_verdict-keeps K admit a d r x y z = x
  by_verdict-keeps K defer a d r x y z = y
  by_verdict-keeps K (reject reason) a d r x y z = z

  remaining-IsBefore :
      (r : Resources) (now : ℕ) (s : Scheduler P) (i : Item P) (q : List (Item P))
      → IsBefore i q
      → IsBefore i (remaining r now s q)
  unfolding remaining
  remaining-IsBefore r now s i [] h = tt
  remaining-IsBefore r now s i (k ∷ q) h =
      let rest = remaining-IsBefore r now s i q h.1 in
      by_verdict-keeps (IsBefore i) (admissible k.job r now s).0 q
        (held_item r now s k ∷ remaining r now s q) (remaining r now s q) h.1 (h.0, rest) rest

  remaining-Ascending :
      (r : Resources) (now : ℕ) (s : Scheduler P) (q : List (Item P))
      → Ascending q
      → Ascending (remaining r now s q)
  unfolding remaining
  remaining-Ascending r now s [] h = tt
  remaining-Ascending r now s (k ∷ q) h =
      let rest = remaining-Ascending r now s q h.1 in
      by_verdict-keeps Ascending (admissible k.job r now s).0 q
        (held_item r now s k ∷ remaining r now s q) (remaining r now s q) h.1
        (remaining-IsBefore r now s k q h.0, rest) rest

  -- On a queue in priority order (by tier, deadline and ticket, without ties), a dispatch that
  -- succeeds leaves exactly the queue without the item that it starts and without the items before
  -- that one which admission rejects. The items before it which admission defers keep their places
  -- and tickets, with their jobs marked as deferred, so that the queue is in priority order again.
  pub dispatch-remaining :
      (r : Resources) (now : ℕ) (s t : Scheduler P) (o : Option (JobRequest P))
      → dispatch r now s ≡ ok (o, t)
      → Ascending s.queue
      → (t.queue ≡ remaining r now s s.queue) × Ascending t.queue
  dispatch-remaining r now s t o h k =
      let (c, m, e) = dispatch-Starts r now s t o h in
      let same = scan-remaining r now s.queue s c m in
      let left = remaining-Ascending r now s s.queue k in
      let queue : t.queue ≡ remaining r now s s.queue =
        e.queue ∙ push_all-front c.held c.rest (subst Ascending (sym same) left) ∙ same in
      (queue, subst Ascending (sym queue) left)
