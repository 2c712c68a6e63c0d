-- ===== src/Runtime/Scheduler/Totality.antt =====
-- A dispatch returns, where the ledger knows the queued jobs (src/sentinel_edge/runtime/scheduler.py).
use sentinel_edge.Prelude.{
  Option-cases, is_some, All, Result-cases, nat_eq, lookup, insert, lookup-insert, ℕ, String, ◌≡◌,
  refl, sym, subst, inl, inr, true, Option, none, some, List, [], ◌∷◌, arith, ok,
}
use sentinel_edge.Domain.Kinds.{Uuid, OpportunityDisposition}
use sentinel_edge.Runtime.Opportunities.{
  OpportunityRecord, Ledger, change, mark_deferred, mark_started, mark_terminal,
}
use sentinel_edge.Runtime.Scheduler.{Resources, JobRequest, Item, Scheduler, declare_overload}
use sentinel_edge.Runtime.Scheduler.Admission.{admissible, admissible_by_resources}
use sentinel_edge.Runtime.Scheduler.Dispatch.{
  Scan, scan, start, dispatch, with_id, hold, drop_job, held_job, rejected_job,
}
use sentinel_edge.Runtime.Scheduler.Steps.{Verdict-cases, after_item}

abbrev pub IsOffered : Ledger → Uuid → Type 0
IsOffered d id = is_some (lookup id d) ≡ true

-- A ledger that knows what another one knows.
abbrev pub Keeps : Ledger → Ledger → Type 0
Keeps d d' = (id : Uuid) → IsOffered d id → IsOffered d' id

change-total :
    (id : Uuid) (f : OpportunityRecord → OpportunityRecord) (d : Ledger)
    → IsOffered d id
    → (d' : Ledger) × (change id f d ≡ ok d') × Keeps d d'
unfolding change
change-total id f d h = elim (Option-cases (lookup id d)) [
  | inl k ↦ absurd ground arith
  | inr (r, k) ↦
      (insert id (f r) d, ground arith, λ j m. ground (arith, lookup-insert j id (f r) d))
]

mark_deferred-total :
    (id : Uuid) (reason : String) (d : Ledger)
    → IsOffered d id
    → (d' : Ledger) × (mark_deferred id reason d ≡ ok d') × Keeps d d'
unfolding mark_deferred
mark_deferred-total id reason d h = change-total id _ d h

mark_terminal-total :
    (id : Uuid) (now : ℕ) (reason : Option String) (d : Ledger)
    → IsOffered d id
    → (d' : Ledger) × (mark_terminal id OpportunityDisposition.skipped now reason d ≡ ok d')
      × Keeps d d'
unfolding mark_terminal
mark_terminal-total id now reason d h = change-total id _ d h

mark_started-total :
    (id : Uuid) (now : ℕ) (d : Ledger)
    → IsOffered d id
    → (d' : Ledger) × (mark_started id now d ≡ ok d') × Keeps d d'
unfolding mark_started
mark_started-total id now d h = change-total id _ d h

module _ {P : Type 0} where
  abbrev pub AreOffered : Ledger → List (Item P) → Type 0
  AreOffered d q = All (λ (i : Item P). IsOffered d i.job.opportunity_id) q

  AreOffered-Keeps :
      (d d' : Ledger) (q : List (Item P)) → Keeps d d' → AreOffered d q → AreOffered d' q
  AreOffered-Keeps d d' [] k h = tt
  AreOffered-Keeps d d' (i ∷ q) k h = (k i.job.opportunity_id h.0, AreOffered-Keeps d d' q k h.1)

  admissible-opportunities :
      (job : JobRequest P) (r : Resources) (now : ℕ) (s : Scheduler P)
      → ((admissible job r now s).2.opportunities ≡ s.opportunities)
        × ((admissible job r now s).1.opportunity_id ≡ job.opportunity_id)
  unfolding admissible admissible_by_resources declare_overload
  admissible-opportunities job r now s = ground arith

  abbrev Selected : Scan P → Type 0
  Selected c = elim c.selected [
    | none ↦ Unit
    | some j ↦ IsOffered c.scheduler.opportunities j.opportunity_id
  ]

  scan-total :
      (r : Resources) (now : ℕ) (q : List (Item P)) (s : Scheduler P)
      → AreOffered s.opportunities q
      → (c : Scan P) × (scan r now q s ≡ ok c) × Selected c
  unfolding scan
  scan-total r now [] s h =
      (record { held = []; rest = []; selected = none; rejected = []; scheduler = s }, refl, tt)
  scan-total r now (i ∷ q) s h =
      let job = (admissible i.job r now s).1 in
      let s' = (admissible i.job r now s).2 in
      let (same, id) = admissible-opportunities i.job r now s in
      let offered : IsOffered s'.opportunities job.opportunity_id =
        subst (λ (d : Ledger). IsOffered d job.opportunity_id) (sym same)
          (subst (IsOffered s.opportunities) (sym id) h.0) in
      let rest : AreOffered s'.opportunities q =
        subst (λ (d : Ledger). AreOffered d q) (sym same) h.1 in
      elim (Verdict-cases (admissible i.job r now s).0) [
        | inl v ↦ (
          record { held = []; rest = q; selected = some job; rejected = []; scheduler = s' },
          ground arith,
          offered,
        )
        | inr (inl v) ↦
            let (d', e, k) =
              mark_deferred-total job.opportunity_id "resource_admission_deferred" s'.opportunities
                offered in
            let t = after_item r now i s d' (with_id job.job_id s'.deferred_ids) in
            let (c, m, chosen) =
              scan-total r now q t (AreOffered-Keeps s'.opportunities d' q k rest) in
            (hold (record i { job = held_job job }) c, ground arith, chosen)
        | inr (inr (reason, v)) ↦
            let (d', e, k) =
              mark_terminal-total job.opportunity_id now (some reason) s'.opportunities offered in
            let t = after_item r now i s d' s'.deferred_ids in
            let (c, m, chosen) =
              scan-total r now q t (AreOffered-Keeps s'.opportunities d' q k rest) in
            (drop_job (rejected_job reason job) c, ground arith, chosen)
      ]

  start-total :
      (now : ℕ) (c : Scan P)
      → Selected c
      → (o : Option (JobRequest P)) × (t : Scheduler P) × (start now c ≡ ok (o, t))
  unfolding start
  start-total now c h = elim (Result-cases (start now c)) [
    | inl ((o, t), k) ↦ (o, t, k)
    | inr (x, k) ↦ elim (Option-cases c.selected) [
      | inl n ↦ absurd ground arith
      | inr (j, n) ↦
          let (d', e, m) =
            mark_started-total j.opportunity_id now c.scheduler.opportunities ground arith in
          absurd ground arith
    ]
  ]

  -- A dispatch returns a result and no error where the ledger has a record of every queued job's
  -- opportunity.
  pub dispatch-total :
      (r : Resources) (now : ℕ) (s : Scheduler P)
      → AreOffered s.opportunities s.queue
      → (o : Option (JobRequest P)) × (t : Scheduler P) × (dispatch r now s ≡ ok (o, t))
  unfolding dispatch
  dispatch-total r now s h =
      let (c, m, chosen) = scan-total r now s.queue s h in
      let (o, t, k) = start-total now c chosen in (o, t, ground arith)
