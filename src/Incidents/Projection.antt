-- ===== src/Incidents/Projection.antt =====
-- The engine's dictionary `_current` as a projection of the journal (src/sentinel_edge/incidents/engine.py).
use Prim.Native.Nat.{max}
use sentinel_edge.Prelude.{
  ◌==◌, if◌then◌else◌, Bool-cases, Result, Result-cases, nat_eq, lookup, insert, lookup-insert,
  Floats, ℕ, ◌<◌, String, ◌≡◌, refl, sym, ap, subst, ◌∙◌, ◌⊎◌, inl, inr, Bool, true, false, not,
  ◌&&◌, Option, none, some, List, [], ◌∷◌, ◌++◌, arith, ok, err,
}
use sentinel_edge.Domain.Kinds.{HazardKind, IncidentState, Instant}
use sentinel_edge.Domain.Kinds.Equality.{hazard_eq, same_hazard, same_hazard_iff}
use sentinel_edge.Domain.Records.{AnalysisResult, IncidentRecord, NotificationIntent}
use sentinel_edge.Storage.Journal.{JournalStore, append_authority}
use sentinel_edge.Storage.Journal.Reads.{max_version, of_version, latest_of}
use sentinel_edge.Storage.Journal.Writes.{
  append_incident_with_notification, commit_incident, commit_notification, position_after,
}
use sentinel_edge.Incidents.Analysis.{
  target_of, next_record, correction, accept, apply_to, apply_analysis, knows, is_late,
  adds_nothing, event_time_of,
}
use sentinel_edge.Incidents.{
  illegal_transition, allowed, state_of, notification_for, Engine, Externals, EngineError, commit,
}

same_hazard_sym : (a b : HazardKind) → same_hazard a b ≡ same_hazard b a
same_hazard_sym a b = ground arith

max_if-single : (b : Bool) (v : ℕ) → (if b then max v 0 else 0) ≡ (if b then max 0 v else 0)
max_if-single b v = ground arith

max_if-swap :
    (a b : Bool) (x y v m : ℕ)
    → m ≡ (if b then max x v else x)
    → (if a then max y m else m)
      ≡ (if b then max (if a then max y x else x) v else (if a then max y x else x))
max_if-swap a b x y v m h = ground arith

module _ {Float : Type 0} where
  max_version-append :
      (h : HazardKind) (es : List (ℕ × IncidentRecord Float)) (p : ℕ) (r : IncidentRecord Float)
      → max_version h (es ++ (p, r) ∷ [])
        ≡ (if same_hazard r.hazard h then max (max_version h es) r.version else max_version h es)
  unfolding max_version
  max_version-append h [] p r = max_if-single (same_hazard r.hazard h) r.version
  max_version-append h ((q, s) ∷ es) p r =
      max_if-swap (same_hazard s.hazard h) (same_hazard r.hazard h) (max_version h es) s.version
        r.version (max_version h (es ++ (p, r) ∷ [])) (max_version-append h es p r)

  of_version-append :
      (h : HazardKind) (v : ℕ) (es : List (ℕ × IncidentRecord Float)) (p : ℕ)
      (r : IncidentRecord Float)
      → of_version h v (es ++ (p, r) ∷ [])
        ≡ of_version h v es ++ (if same_hazard r.hazard h && r.version == v then r ∷ [] else [])
  unfolding of_version
  of_version-append h v [] p r = ground arith
  of_version-append h v ((q, s) ∷ es) p r = ground (arith, of_version-append h v es p r)

  of_version-above :
      (h : HazardKind) (v : ℕ) (es : List (ℕ × IncidentRecord Float))
      → max_version h es < v
      → of_version h v es ≡ []
  unfolding max_version of_version
  of_version-above h v [] k = refl
  of_version-above h v ((q, s) ∷ es) k = ground (arith, of_version-above h v es)

  -- What the journal holds of a hazard whose current record is the given one.
  abbrev pub Shown : HazardKind → Option (IncidentRecord Float) → JournalStore Float → Type 0
  Shown h none s = (latest_of s h ≡ []) × (max_version h s.incident_events ≡ 0)
  Shown h (some c) s =
      (latest_of s h ≡ c ∷ []) × (max_version h s.incident_events ≡ c.version) × (c.hazard ≡ h)

  -- The current records are the journal's latest.
  abbrev pub IsProjected : Engine Float → Type 0
  IsProjected e = (h : HazardKind) → Shown h (lookup h e.current) e.journal

  abbrev pub version_of : Option (IncidentRecord Float) → ℕ
  version_of none = 0
  version_of (some c) = c.version

  latest_of-append :
      (h : HazardKind) (o : Option (IncidentRecord Float)) (s t : JournalStore Float) (p : ℕ)
      (r : IncidentRecord Float)
      → Shown h o s
      → t.incident_events ≡ s.incident_events ++ (p, r) ∷ []
      → r.hazard ≡ h
      → version_of o < r.version
      → Shown h (some r) t
  unfolding latest_of
  latest_of-append h o s t p r k e m n = ground (
    arith,
    k,
    e,
    (same_hazard_iff r.hazard h).1 m,
    max_version-append h s.incident_events p r,
    of_version-append h r.version s.incident_events p r,
    of_version-above h r.version s.incident_events,
  )

  latest_of-other :
      (h : HazardKind) (o : Option (IncidentRecord Float)) (s t : JournalStore Float) (p : ℕ)
      (r : IncidentRecord Float)
      → Shown h o s
      → t.incident_events ≡ s.incident_events ++ (p, r) ∷ []
      → same_hazard r.hazard h ≡ false
      → Shown h o t
  unfolding latest_of
  latest_of-other h o s t p r k e m = ground (
    arith,
    k,
    e,
    max_version-append h s.incident_events p r,
    of_version-append h (max_version h s.incident_events) s.incident_events p r,
  )

  append_incident-events :
      (digest : _) (r : IncidentRecord Float) (n : Option NotificationIntent)
      (s t : JournalStore Float) (b : Bool)
      → append_incident_with_notification digest r n s ≡ (ok b, t)
      → t.incident_events ≡ s.incident_events ++ (position_after s, r) ∷ []
  unfolding append_incident_with_notification commit_incident commit_notification append_authority
  append_incident-events digest r n s t b h = ground arith

  module _ (ex : Externals Float) where
    commit-shape :
        (h : HazardKind) (r : IncidentRecord Float) (n : Option NotificationIntent)
        (e : Engine Float)
        → ((commit ex h r n e).1 ≡ e)
          ⊎ (((commit ex h r n e).1.current ≡ insert h r e.current)
              × ((commit ex h r n e).1.journal.incident_events
                  ≡ e.journal.incident_events ++ (position_after e.journal, r) ∷ []))
    unfolding commit
    commit-shape h r n e =
        let m = append_incident_with_notification ex.authority_digest r n e.journal in
        elim (Result-cases m.0) [
          | inl (b, k) ↦ inr (
            ground arith,
            ground (arith, k, append_incident-events ex.authority_digest r n e.journal m.1 b),
          )
          | inr (x, k) ↦ inl ground arith
        ]

    commit-IsProjected :
        (h : HazardKind) (r : IncidentRecord Float) (n : Option NotificationIntent)
        (e : Engine Float)
        → IsProjected e
        → r.hazard ≡ h
        → version_of (lookup h e.current) < r.version
        → IsProjected (commit ex h r n e).1
    commit-IsProjected h r n e k m v j = elim (commit-shape h r n e) [
      | inl same ↦
          subst (λ (d : Engine Float). Shown j (lookup j d.current) d.journal) (sym same) (k j)
      | inr (current, events) ↦
          let d = (commit ex h r n e).1 in
          elim (Bool-cases (same_hazard j h)) [
            | inl l ↦
                let jh = (same_hazard_iff j h).0 l in
                let found : lookup j d.current ≡ some r =
                  ap (lookup j) current
                  ∙ lookup-insert j h r e.current
                  ∙ ap (λ b. if b then some r else lookup j e.current) l in
                subst (λ (o : Option (IncidentRecord Float)). Shown j o d.journal) (sym found)
                  (latest_of-append j (lookup j e.current) e.journal d.journal
                    (position_after e.journal) r (k j) events (m ∙ sym jh)
                    (subst (λ i. version_of (lookup i e.current) < r.version) (sym jh) v))
            | inr l ↦
                let kept : lookup j d.current ≡ lookup j e.current =
                  ap (lookup j) current
                  ∙ lookup-insert j h r e.current
                  ∙ ap (λ b. if b then some r else lookup j e.current) l in
                subst (λ (o : Option (IncidentRecord Float)). Shown j o d.journal) (sym kept)
                  (latest_of-other j (lookup j e.current) e.journal d.journal
                    (position_after e.journal) r (k j) events
                    (ap (λ i. same_hazard i j) m ∙ same_hazard_sym h j ∙ l))
          ]
    ]

module _ (fl : Floats) (ex : Externals fl.Float) where
  open fl use {Float}

  abbrev Run : Type 0
  Run = Result EngineError (IncidentRecord Float) × Engine Float

  if-IsProjected :
      (b : Bool) (x y : Run)
      → IsProjected x.1
      → IsProjected y.1
      → IsProjected (if b then x else y).1
  if-IsProjected true x y h k = h
  if-IsProjected false x y h k = k

  next_record-version :
      (a : AnalysisResult Float) (target : IncidentState) (reasons : List String) (at : Instant)
      (current : Option (IncidentRecord Float))
      → ((next_record ex a target reasons at current).hazard ≡ a.hazard)
        × (version_of current < (next_record ex a target reasons at current).version)
  unfolding next_record
  next_record-version a target reasons at none = (refl, omega arith)
  next_record-version a target reasons at (some c) = (refl, omega arith)

  correction-fields :
      (a : AnalysisResult Float) (at : Instant) (c : IncidentRecord Float)
      → c.hazard ≡ a.hazard
      → ((correction a at c).hazard ≡ a.hazard) × (c.version < (correction a at c).version)
  unfolding correction
  correction-fields a at c h = (h, omega arith)

  accept-IsProjected :
      (a : AnalysisResult Float) (at : Instant) (current : Option (IncidentRecord Float))
      (e : Engine Float)
      → IsProjected e
      → lookup a.hazard e.current ≡ current
      → IsProjected (accept fl ex a at current e).1
  unfolding accept
  accept-IsProjected a at current e k m =
      let (target, reasons) = target_of a current in
      let r = next_record ex a target reasons at current in
      let (hazard, version) = next_record-version a target reasons at current in
      if-IsProjected (not (allowed (state_of current) target)) (err illegal_transition, e)
        (commit ex a.hazard r (notification_for ex e r (state_of current) at) e) k
        (commit-IsProjected ex a.hazard r (notification_for ex e r (state_of current) at) e k hazard
          (subst (λ (o : Option (IncidentRecord Float)). version_of o < r.version) (sym m) version))

  apply_to-IsProjected :
      (a : AnalysisResult Float) (at : Instant) (current : Option (IncidentRecord Float))
      (e : Engine Float)
      → IsProjected e
      → lookup a.hazard e.current ≡ current
      → IsProjected (apply_to fl ex a at current e).1
  unfolding apply_to
  apply_to-IsProjected a at none e k m = accept-IsProjected a at none e k m
  apply_to-IsProjected a at (some c) e k m =
      let shown =
        subst (λ (o : Option (IncidentRecord Float)). Shown a.hazard o e.journal) m (k a.hazard) in
      let r = correction a at c in
      let late = if adds_nothing fl ex a c then (ok c, e) else commit ex a.hazard r none e in
      let timely = accept fl ex a at (some c) e in
      if-IsProjected (knows c a.analysis_id) (ok c, e)
        (if is_late (event_time_of a) c.event_time_watermark then late else timely) k
        (if-IsProjected (is_late (event_time_of a) c.event_time_watermark) late timely
          (if-IsProjected (adds_nothing fl ex a c) (ok c, e) (commit ex a.hazard r none e) k
            (commit-IsProjected ex a.hazard r none e k (correction-fields a at c shown.2).0 (
              subst (λ (o : Option (IncidentRecord Float)). version_of o < r.version) (sym m)
                (correction-fields a at c shown.2).1)))
          (accept-IsProjected a at (some c) e k m))

  -- Whether an analysis succeeds or fails, the current record of every hazard stays the one that the
  -- journal shows as its latest, and the hazards without a current record have none in the journal.
  pub apply_analysis-IsProjected :
      (a : AnalysisResult Float) (at : Instant) (e : Engine Float)
      → IsProjected e
      → IsProjected (apply_analysis fl ex a at e).1
  unfolding apply_analysis
  apply_analysis-IsProjected a at e k =
      apply_to-IsProjected a at (lookup a.hazard e.current) e k refl
