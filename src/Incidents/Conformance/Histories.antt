-- ===== src/Incidents/Conformance/Histories.antt =====
-- The engine's projection conforms through any history of analyses
-- (src/sentinel_edge/incidents/engine.py).
use sentinel_edge.Prelude.{
  if◌then◌else◌, length, any, Result, Result-cases, nat_eq, Dict, lookup, Floats, ℕ, String, ◌≡◌,
  refl, ap, subst, ◌∙◌, inl, inr, Bool, true, false, not, Option, none, some, List, [], ◌∷◌, arith,
  ok, err,
}
use sentinel_edge.Domain.Kinds.{HazardKind, IncidentState, Instant}
use sentinel_edge.Domain.Kinds.Equality.{hazard_eq, same_state}
use sentinel_edge.Domain.Records.{AnalysisResult, IncidentRecord, NotificationIntent}
use sentinel_edge.Storage.Journal.{AuthorityPayload, empty_store}
use sentinel_edge.Storage.Journal.Reads.{latest_by_hazard, latest_of, max_version, of_version}
use sentinel_edge.Storage.Journal.Writes.{append_incident_with_notification}
use sentinel_edge.Storage.Journal.Chain.{authority_conformance, IsChained, Conformance}
use sentinel_edge.Storage.Journal.Chain.Valid.{authority_conformance-valid}
use sentinel_edge.Storage.Journal.History.{Write, write, write-IsChained}
use sentinel_edge.Incidents.{
  Engine, Externals, EngineError, by_hazard, init, commit, allowed, state_of, notification_for,
  illegal_transition,
}
use sentinel_edge.Incidents.Analysis.{
  target_of, next_record, correction, accept, apply_to, apply_analysis, knows, is_late,
  adds_nothing, event_time_of,
}
use sentinel_edge.Incidents.Projection.{IsProjected, apply_analysis-IsProjected}
use sentinel_edge.Incidents.Restart.{init-restores}
use sentinel_edge.Incidents.Conformance.{
  report_on, Divergence, hazards, diverges, one_sided, divergences, projection_conformance,
}

same_state_refl : (s : IncidentState) → same_state s s ≡ true
same_state_refl s = ground arith

-- Without a failure in its parts the report has none.
report-clean :
    (sided : Bool) (found : List Divergence) (authority : Conformance) (count : ℕ)
    → sided ≡ false
    → found ≡ []
    → authority.valid ≡ true
    → authority.highest_contiguous_position ≡ count
    → report_on sided found authority
      ≡ record { valid = true; authority_watermark = count; failures = [] }
report-clean sided found authority count a b c d = ground arith

module _ {Float : Type 0} where
  diverges_self : (o : Option (IncidentRecord Float)) → diverges o o ≡ false
  diverges_self none = refl
  diverges_self (some a) = ground (arith, same_state_refl a.state)

  one_sided_self : (o : Option (IncidentRecord Float)) → one_sided o o ≡ false
  one_sided_self none = refl
  one_sided_self (some a) = refl

  divergences-same :
      (hs : List HazardKind) (durable current : Dict HazardKind (IncidentRecord Float))
      → ((h : HazardKind) → lookup h durable ≡ lookup h current)
      → divergences hs durable current ≡ []
  unfolding divergences
  divergences-same [] durable current f = refl
  divergences-same (h ∷ hs) durable current f = ground (
    arith,
    divergences-same hs durable current f,
    ap (λ o. diverges o (lookup h current)) (f h) ∙ diverges_self (lookup h current),
  )

  any-one_sided :
      (hs : List HazardKind) (durable current : Dict HazardKind (IncidentRecord Float))
      → ((h : HazardKind) → lookup h durable ≡ lookup h current)
      → any (λ h. one_sided (lookup h durable) (lookup h current)) hs ≡ false
  any-one_sided [] durable current f = refl
  any-one_sided (h ∷ hs) durable current f = ground (
    arith,
    any-one_sided hs durable current f,
    ap (λ o. one_sided o (lookup h current)) (f h) ∙ one_sided_self (lookup h current),
  )

  module _ (digest json : AuthorityPayload Float → String) where
    -- An engine whose current records are the journal's latest, on a journal that is chained,
    -- conforms, and its watermark is the number of authority events.
    pub projection_conformance-valid :
        (e : Engine Float)
        → IsProjected e
        → IsChained digest json e.journal
        → projection_conformance digest json e ≡ record {
          valid = true;
          authority_watermark = length e.journal.authority_events;
          failures = [];
        }
    unfolding projection_conformance init
    projection_conformance-valid e p c =
        let durable = by_hazard (latest_by_hazard e.journal) [] in
        let same : (h : HazardKind) → lookup h durable ≡ lookup h e.current =
          λ h. init-restores e 0 h p in
        let authority = authority_conformance-valid digest json e.journal c in
        report-clean (any (λ h. one_sided (lookup h durable) (lookup h e.current)) hazards)
          (divergences hazards durable e.current) (authority_conformance digest json e.journal)
          (length e.journal.authority_events) (any-one_sided hazards durable e.current same)
          (divergences-same hazards durable e.current same)
          (ap (λ (k : Conformance). k.valid) authority)
          (ap (λ (k : Conformance). k.highest_contiguous_position) authority)

module _ (fl : Floats) (ex : Externals fl.Float) where
  open fl use {Float}

  abbrev Run : Type 0
  Run = Result EngineError (IncidentRecord Float) × Engine Float

  -- What every commit keeps, an analysis keeps.
  module _ (P : Engine Float → Type 0)
      (commits : (h : HazardKind) (r : IncidentRecord Float) (n : Option NotificationIntent)
          (e : Engine Float)
        → P e
        → P (commit ex h r n e).1) where
    if-keeps : (b : Bool) (x y : Run) → P x.1 → P y.1 → P (if b then x else y).1
    if-keeps true x y h k = h
    if-keeps false x y h k = k

    accept-keeps :
        (a : AnalysisResult Float) (at : Instant) (current : Option (IncidentRecord Float))
        (e : Engine Float)
        → P e
        → P (accept fl ex a at current e).1
    unfolding accept
    accept-keeps a at current e k =
        let (target, reasons) = target_of a current in
        let r = next_record ex a target reasons at current in
        let n = notification_for ex e r (state_of current) at in
        if-keeps (not (allowed (state_of current) target)) (err illegal_transition, e)
          (commit ex a.hazard r n e) k (commits a.hazard r n e k)

    apply_to-keeps :
        (a : AnalysisResult Float) (at : Instant) (current : Option (IncidentRecord Float))
        (e : Engine Float)
        → P e
        → P (apply_to fl ex a at current e).1
    unfolding apply_to
    apply_to-keeps a at none e k = accept-keeps a at none e k
    apply_to-keeps a at (some c) e k =
        let late =
          if adds_nothing fl ex a c
          then (ok c, e)
          else commit ex a.hazard (correction a at c) none e in
        let timely = accept fl ex a at (some c) e in
        if-keeps (knows c a.analysis_id) (ok c, e)
          (if is_late (event_time_of a) c.event_time_watermark then late else timely) k
          (if-keeps (is_late (event_time_of a) c.event_time_watermark) late timely
            (if-keeps (adds_nothing fl ex a c) (ok c, e)
              (commit ex a.hazard (correction a at c) none e) k
              (commits a.hazard (correction a at c) none e k))
            (accept-keeps a at (some c) e k))

    pub apply_analysis-keeps :
        (a : AnalysisResult Float) (at : Instant) (e : Engine Float)
        → P e
        → P (apply_analysis fl ex a at e).1
    unfolding apply_analysis
    apply_analysis-keeps a at e k = apply_to-keeps a at (lookup a.hazard e.current) e k

  -- A sequence of analyses with their times of acceptance; a refused one changes nothing.
  unfoldable pub apply_all : List (AnalysisResult Float × Instant) → Engine Float → Engine Float
  apply_all [] e = e
  apply_all ((a, at) ∷ steps) e = apply_all steps (apply_analysis fl ex a at e).1

  module _ (json : AuthorityPayload Float → String) where
    commit-IsChained :
        (h : HazardKind) (r : IncidentRecord Float) (n : Option NotificationIntent)
        (e : Engine Float)
        → IsChained ex.authority_digest json e.journal
        → IsChained ex.authority_digest json (commit ex h r n e).1.journal
    unfolding commit write
    commit-IsChained h r n e k =
        let m = append_incident_with_notification ex.authority_digest r n e.journal in
        elim (Result-cases m.0) [
          | inl (b, l) ↦
              let same : m.1 ≡ (commit ex h r n e).1.journal = ground arith in
              subst (IsChained ex.authority_digest json) same (
                write-IsChained ex.authority_digest json ex.relation_digest (Write.incident r n)
                  e.journal k)
          | inr (x, l) ↦
              let same : e.journal ≡ (commit ex h r n e).1.journal = ground arith in
              subst (IsChained ex.authority_digest json) same k
        ]

    pub apply_all-conforms :
        (steps : List (AnalysisResult Float × Instant)) (e : Engine Float)
        → IsProjected e
        → IsChained ex.authority_digest json e.journal
        → IsProjected (apply_all steps e)
          × IsChained ex.authority_digest json (apply_all steps e).journal
    unfolding apply_all
    apply_all-conforms [] e p c = (p, c)
    apply_all-conforms ((a, at) ∷ steps) e p c =
        apply_all-conforms steps (apply_analysis fl ex a at e).1
          (apply_analysis-IsProjected fl ex a at e p)
          (apply_analysis-keeps (λ (d : Engine Float). IsChained ex.authority_digest json d.journal)
            commit-IsChained a at e c)

    pub empty-IsProjected : (budget : ℕ) → IsProjected {Float = Float} (init empty_store budget)
    unfolding init latest_by_hazard latest_of max_version of_version by_hazard
    empty-IsProjected budget h = (refl, refl)

    -- An engine that starts on an empty store conforms after any sequence of analyses, accepted or
    -- refused: its current records are the journal's latest, the authority journal is valid, and the
    -- watermark is the number of authority events.
    pub histories-conform :
        (steps : List (AnalysisResult Float × Instant)) (budget : ℕ)
        → let e = apply_all steps (init empty_store budget) in
          projection_conformance ex.authority_digest json e ≡ record {
            valid = true;
            authority_watermark = length e.journal.authority_events;
            failures = [];
          }
    unfolding init
    histories-conform steps budget =
        let e = init empty_store budget in
        let (p, c) = apply_all-conforms steps e (empty-IsProjected budget) tt in
        projection_conformance-valid ex.authority_digest json (apply_all steps e) p c
