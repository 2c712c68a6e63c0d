-- ===== src/Incidents/Replay.antt =====
-- Redelivery of an analysis (src/sentinel_edge/incidents/engine.py).
use sentinel_edge.Prelude.{
  ◌==◌, any, nat_eq, lookup, Floats, String, ◌≡◌, refl, sym, ap, ◌∙◌, ◌⊎◌, inl, inr, true, Option,
  none, some, List, [], ◌∷◌, ◌++◌, arith, ok,
}
use sentinel_edge.Domain.Kinds.{Uuid, Instant, IncidentState}
use sentinel_edge.Domain.Kinds.Equality.{hazard_eq}
use sentinel_edge.Domain.Records.{AnalysisResult, IncidentRecord}
use sentinel_edge.Incidents.{Engine, Externals, commit}
use sentinel_edge.Incidents.Analysis.{
  knows, correction, next_record, target_of, accept, apply_to, apply_analysis, adds_nothing,
  is_late, event_time_of,
}
use sentinel_edge.Incidents.Lifecycle.{At, apply_analysis-At, accept-ok, commit-ok}

any-append_self : (id : Uuid) (ids : List Uuid) → any (λ j. j == id) (ids ++ id ∷ []) ≡ true
any-append_self id [] = ground arith
any-append_self id (j ∷ ids) = ground (arith, any-append_self id ids)

module _ (fl : Floats) (ex : Externals fl.Float) where
  open fl use {Float}

  next_record-knows :
      (a : AnalysisResult Float) (target : IncidentState) (reasons : List String) (at : Instant)
      (current : Option (IncidentRecord Float))
      → knows (next_record ex a target reasons at current) a.analysis_id ≡ true
  unfolding next_record
  next_record-knows a target reasons at none = ground arith
  next_record-knows a target reasons at (some c) = any-append_self a.analysis_id c.analysis_ids

  correction-knows :
      (a : AnalysisResult Float) (at : Instant) (c : IncidentRecord Float)
      → knows (correction a at c) a.analysis_id ≡ true
  unfolding correction
  correction-knows a at c = any-append_self a.analysis_id c.analysis_ids

  known :
      (a : AnalysisResult Float) (at : Instant) (r : IncidentRecord Float) (e : Engine Float)
      → At a.hazard e r
      → knows r a.analysis_id ≡ true
      → apply_analysis fl ex a at e ≡ (ok r, e)
  unfolding apply_analysis apply_to
  known a at r e h k = ground arith

  -- What makes an analysis leave the current incident as it is.
  abbrev IsIdle : AnalysisResult Float → IncidentRecord Float → Type 0
  IsIdle a c =
      (knows c a.analysis_id ≡ true)
      ⊎ ((is_late (event_time_of a) c.event_time_watermark ≡ true)
          × (adds_nothing fl ex a c ≡ true))

  apply_to-idle :
      (a : AnalysisResult Float) (at : Instant) (c : IncidentRecord Float) (e : Engine Float)
      → IsIdle a c
      → apply_to fl ex a at (some c) e ≡ (ok c, e)
  unfolding apply_to
  apply_to-idle a at c e h = ground arith

  apply_to-shape :
      (a : AnalysisResult Float) (at : Instant) (c : IncidentRecord Float) (e : Engine Float)
      → IsIdle a c
        ⊎ ((apply_to fl ex a at (some c) e ≡ commit ex a.hazard (correction a at c) none e)
            ⊎ (apply_to fl ex a at (some c) e ≡ accept fl ex a at (some c) e))
  unfolding apply_to
  apply_to-shape a at c e = ground arith

  accept-known :
      (a : AnalysisResult Float) (at : Instant) (current : Option (IncidentRecord Float))
      (r : IncidentRecord Float) (e e' : Engine Float)
      → accept fl ex a at current e ≡ (ok r, e')
      → At a.hazard e' r × (knows r a.analysis_id ≡ true)
  accept-known a at current r e e' q =
      let k = accept-ok fl ex a at current r e e' q in
      let (target, reasons) = target_of a current in
      (
        k.2,
        ap (λ (x : IncidentRecord Float). knows x a.analysis_id) k.1
            ∙ next_record-knows a target reasons at current,
      )

  again_at :
      (a : AnalysisResult Float) (at at' : Instant) (current : Option (IncidentRecord Float))
      (r : IncidentRecord Float) (e e' : Engine Float)
      → lookup a.hazard e.current ≡ current
      → apply_to fl ex a at current e ≡ (ok r, e')
      → apply_analysis fl ex a at' e' ≡ (ok r, e')
  again_at a at at' none r e e' h q =
      let k = accept-known a at none r e e' (unfold apply_to in q) in known a at' r e' k.0 k.1
  again_at a at at' (some c) r e e' h q = elim (apply_to-shape a at c e) [
    | inl idle ↦
        let same = sym (apply_to-idle a at c e idle) ∙ q in
        let still = sym (apply_analysis-At fl ex a at' c e h) ∙ apply_to-idle a at' c e idle in cc
    | inr (inl p) ↦
        let k = commit-ok fl ex a.hazard (correction a at c) none e e' r (sym p ∙ q) in
        known a at' r e' (rw k.0 k.1) (rw k.0 (correction-knows a at c))
    | inr (inr p) ↦
        let k = accept-known a at (some c) r e e' (sym p ∙ q) in known a at' r e' k.0 k.1
  ]

  -- Applying an analysis again, at whatever time, returns the same incident and changes nothing.
  pub apply_analysis-again :
      (a : AnalysisResult Float) (at at' : Instant) (r : IncidentRecord Float) (e e' : Engine Float)
      → apply_analysis fl ex a at e ≡ (ok r, e')
      → apply_analysis fl ex a at' e' ≡ (ok r, e')
  apply_analysis-again a at at' r e e' q =
      again_at a at at' (lookup a.hazard e.current) r e e' refl (unfold apply_analysis in q)
