-- ===== src/Runtime/Scheduler/Steps.antt =====
-- One round of the loop of `dispatch` (src/sentinel_edge/runtime/scheduler.py), taken apart.
use sentinel_edge.Prelude.{
  Result, Result-cases, ℕ, String, ◌≡◌, refl, ◌⊎◌, inl, inr, some, List, [], ◌∷◌, arith, ok, err,
}
use sentinel_edge.Domain.Kinds.{Uuid, OpportunityDisposition}
use sentinel_edge.Runtime.Opportunities.{Ledger, mark_terminal, mark_deferred}
use sentinel_edge.Runtime.Scheduler.{Resources, Item, Scheduler}
use sentinel_edge.Runtime.Scheduler.Admission.{Verdict, admit, defer, reject, admissible}
use sentinel_edge.Runtime.Scheduler.Dispatch.{
  Scan, scan, hold, drop_job, held_job, rejected_job, map_scan, with_id,
}

pub Verdict-cases :
    (v : Verdict) → (v ≡ admit) ⊎ ((v ≡ defer) ⊎ ((reason : String) × (v ≡ reject reason)))
Verdict-cases admit = inl refl
Verdict-cases defer = inr (inl refl)
Verdict-cases (reject reason) = inr (inr (reason, refl))

module _ {P : Type 0} where
  abbrev pub after_item : Resources → ℕ → Item P → Scheduler P → Ledger → List Uuid → Scheduler P
  after_item r now i s opportunities ids = record ((admissible i.job r now s).2) {
    opportunities = opportunities;
    deferred_ids = ids;
  }

  -- How a scan that succeeds treats its first item.
  pub data ScanStep (r : Resources) (now : ℕ) (i : Item P) (q : List (Item P)) (s : Scheduler P)
      (c : Scan P) : Type 0 where
    stop :
        (admissible i.job r now s).0 ≡ admit
        → c ≡ record {
          held = [];
          rest = q;
          selected = some (admissible i.job r now s).1;
          rejected = [];
          scheduler = (admissible i.job r now s).2;
        }
        → ScanStep r now i q s c
    pass :
        (opportunities : Ledger) (ids : List Uuid) (d : Scan P)
        → (admissible i.job r now s).0 ≡ defer
        → scan r now q (after_item r now i s opportunities ids) ≡ ok d
        → c ≡ hold (record i { job = held_job (admissible i.job r now s).1 }) d
        → ScanStep r now i q s c
    drop :
        (opportunities : Ledger) (ids : List Uuid) (reason : String) (d : Scan P)
        → (admissible i.job r now s).0 ≡ reject reason
        → scan r now q (after_item r now i s opportunities ids) ≡ ok d
        → c ≡ drop_job (rejected_job reason (admissible i.job r now s).1) d
        → ScanStep r now i q s c

  map_scan-eq_ok :
      (f : Scan P → Scan P) (m : Result _ (Scan P)) (c : Scan P)
      → map_scan f m ≡ ok c
      → (d : Scan P) × (m ≡ ok d) × (c ≡ f d)
  map_scan-eq_ok f (ok d) c h = (d, refl, ground arith)
  map_scan-eq_ok f (err x) c h = cc

  scan-stop :
      (r : Resources) (now : ℕ) (i : Item P) (q : List (Item P)) (s : Scheduler P) (c : Scan P)
      → scan r now (i ∷ q) s ≡ ok c
      → (admissible i.job r now s).0 ≡ admit
      → ScanStep r now i q s c
  unfolding scan
  scan-stop r now i q s c h v = ScanStep.stop v ground arith

  scan-pass :
      (r : Resources) (now : ℕ) (i : Item P) (q : List (Item P)) (s : Scheduler P) (c : Scan P)
      → scan r now (i ∷ q) s ≡ ok c
      → (admissible i.job r now s).0 ≡ defer
      → ScanStep r now i q s c
  unfolding scan
  scan-pass r now i q s c h v =
      let job = (admissible i.job r now s).1 in
      let s' = (admissible i.job r now s).2 in
      elim (Result-cases
        (mark_deferred job.opportunity_id "resource_admission_deferred" s'.opportunities)) [
          | inl (led, m) ↦
              let (d, e, k) =
                map_scan-eq_ok (hold (record i { job = held_job job }))
                  (scan r now q (after_item r now i s led (with_id job.job_id s'.deferred_ids))) c
                  ground arith in
              ScanStep.pass led (with_id job.job_id s'.deferred_ids) d v e k
          | inr (x, m) ↦ absurd ground arith
        ]

  scan-drop :
      (r : Resources) (now : ℕ) (i : Item P) (q : List (Item P)) (s : Scheduler P) (c : Scan P)
      (reason : String)
      → scan r now (i ∷ q) s ≡ ok c
      → (admissible i.job r now s).0 ≡ reject reason
      → ScanStep r now i q s c
  unfolding scan
  scan-drop r now i q s c reason h v =
      let job = (admissible i.job r now s).1 in
      let s' = (admissible i.job r now s).2 in
      elim (Result-cases (
        mark_terminal job.opportunity_id OpportunityDisposition.skipped now (some reason)
          s'.opportunities)) [
            | inl (led, m) ↦
                let (d, e, k) =
                  map_scan-eq_ok (drop_job (rejected_job reason job))
                    (scan r now q (after_item r now i s led s'.deferred_ids)) c ground arith in
                ScanStep.drop led s'.deferred_ids reason d v e k
            | inr (x, m) ↦ absurd ground arith
          ]

  pub scan-ScanStep :
      (r : Resources) (now : ℕ) (i : Item P) (q : List (Item P)) (s : Scheduler P) (c : Scan P)
      → scan r now (i ∷ q) s ≡ ok c
      → ScanStep r now i q s c
  scan-ScanStep r now i q s c h = elim (Verdict-cases (admissible i.job r now s).0) [
    | inl v ↦ scan-stop r now i q s c h v
    | inr (inl v) ↦ scan-pass r now i q s c h v
    | inr (inr (reason, v)) ↦ scan-drop r now i q s c reason h v
  ]
