-- ===== src/Incidents/Lifecycle.antt =====
-- What `apply_analysis` of src/sentinel_edge/incidents/engine.py does to the current incident.
use sentinel_edge.Prelude.{
  lookup, lookup-insert_self, Floats, suc, ◌≤◌, String, ◌≡◌, refl, sym, ap, subst, ◌∙◌, ◌≢◌, ◌⊎◌,
  inl, inr, Bool, true, false, ◌||◌, Option, none, some, List, arith, ok, err,
}
use sentinel_edge.Domain.Kinds.{Instant, IncidentState, HazardKind}
use sentinel_edge.Domain.Kinds.Equality.{hazard_eq}
use sentinel_edge.Domain.Records.{AnalysisResult, IncidentRecord, NotificationIntent}
use sentinel_edge.Storage.Journal.{append_authority}
use sentinel_edge.Storage.Journal.Writes.{append_incident_with_notification, commit_incident}
use sentinel_edge.Incidents.{
  Engine, Externals, allowed, illegal_transition, state_of, notification_for, commit,
}
use sentinel_edge.Incidents.Analysis.{
  watermark_after, event_time_of, target_of, next_record, correction, is_blind, is_late, accept,
  apply_to, apply_analysis,
}

-- A watermark is kept and does not go back.
abbrev pub NotBefore : Option Instant → Option Instant → Type 0
NotBefore none v = Unit
NotBefore (some w) none = ⊥
NotBefore (some w) (some v) = w ≤ v

NotBefore-refl : (w : Option Instant) → NotBefore w w
NotBefore-refl none = tt
NotBefore-refl (some w) = omega arith

NotBefore-watermark_after :
    (t : Instant) (w : Option Instant) → NotBefore w (some (watermark_after t w))
NotBefore-watermark_after t none = tt
NotBefore-watermark_after t (some w) = omega arith

module _ {Float : Type 0} where
  abbrev pub At : HazardKind → Engine Float → IncidentRecord Float → Type 0
  At h e r = lookup h e.current ≡ some r

  -- A later record of the same incident: one version on, by an allowed transition, with a watermark
  -- that has not gone back.
  pub record Succeeds (c r : IncidentRecord Float) : Type 0 where
    pub version : r.version ≡ suc c.version
    pub transition : allowed c.state r.state ≡ true
    pub identity : r.incident_id ≡ c.incident_id
    pub first_seen : r.first_observed_at ≡ c.first_observed_at
    pub watermark : NotBefore c.event_time_watermark r.event_time_watermark

allowed_refl : (s : IncidentState) → allowed s s ≡ true
allowed_refl s = ground arith

module _ (fl : Floats) (ex : Externals fl.Float) where
  open fl use {Float}

  pub commit-ok :
      (h : HazardKind) (r : IncidentRecord Float) (n : Option NotificationIntent)
      (e e' : Engine Float) (x : IncidentRecord Float)
      → commit ex h r n e ≡ (ok x, e')
      → (x ≡ r) × (lookup h e'.current ≡ some r)
  unfolding commit
  commit-ok h r n e e' x q = ground (arith, lookup-insert_self h r e.current)

  pub accept-ok :
      (a : AnalysisResult Float) (at : Instant) (current : Option (IncidentRecord Float))
      (r : IncidentRecord Float) (e e' : Engine Float)
      → accept fl ex a at current e ≡ (ok r, e')
      → let (target, reasons) = target_of a current in
        (allowed (state_of current) target ≡ true)
        × (r ≡ next_record ex a target reasons at current)
        × At a.hazard e' r
  unfolding accept
  accept-ok a at current r e e' q =
      let (target, reasons) = target_of a current in
      let x = next_record ex a target reasons at current in
      ground (arith, commit-ok a.hazard x (notification_for ex e x (state_of current) at) e e' r)

  next_record-Succeeds :
      (a : AnalysisResult Float) (target : IncidentState) (reasons : List String) (at : Instant)
      (c : IncidentRecord Float)
      → allowed c.state target ≡ true
      → Succeeds c (next_record ex a target reasons at (some c))
  unfolding next_record
  next_record-Succeeds a target reasons at c h = record {
    version = omega arith;
    transition = h;
    identity = refl;
    first_seen = refl;
    watermark = NotBefore-watermark_after (event_time_of a) c.event_time_watermark;
  }

  correction-Succeeds :
      (a : AnalysisResult Float) (at : Instant) (c : IncidentRecord Float)
      → Succeeds c (correction a at c)
  unfolding correction
  correction-Succeeds a at c = record {
    version = omega arith;
    transition = allowed_refl c.state;
    identity = refl;
    first_seen = refl;
    watermark = NotBefore-refl c.event_time_watermark;
  }

  pub apply_analysis-At :
      (a : AnalysisResult Float) (at : Instant) (c : IncidentRecord Float) (e : Engine Float)
      → At a.hazard e c
      → apply_to fl ex a at (some c) e ≡ apply_analysis fl ex a at e
  unfolding apply_analysis
  apply_analysis-At a at c e h = rw h

  -- The three ways in which an analysis meets a current incident: it leaves it, corrects it late, or
  -- is accepted in order.
  pub apply_to-cases :
      (a : AnalysisResult Float) (at : Instant) (c : IncidentRecord Float) (e : Engine Float)
      → (apply_to fl ex a at (some c) e ≡ (ok c, e))
        ⊎ (((is_late (event_time_of a) c.event_time_watermark ≡ true)
              × (apply_to fl ex a at (some c) e ≡ commit ex a.hazard (correction a at c) none e))
            ⊎ ((is_late (event_time_of a) c.event_time_watermark ≡ false)
                × (apply_to fl ex a at (some c) e ≡ accept fl ex a at (some c) e)))
  unfolding apply_to
  apply_to-cases a at c e = ground arith

  apply_to-Succeeds :
      (a : AnalysisResult Float) (at : Instant) (c r : IncidentRecord Float) (e e' : Engine Float)
      → apply_to fl ex a at (some c) e ≡ (ok r, e')
      → ((r ≡ c) × (e' ≡ e)) ⊎ (Succeeds c r × At a.hazard e' r)
  apply_to-Succeeds a at c r e e' q = elim (apply_to-cases a at c e) [
    | inl same ↦ inl (ground arith)
    | inr (inl (late, p)) ↦
        let k = commit-ok a.hazard (correction a at c) none e e' r (sym p ∙ q) in
        inr (subst (Succeeds c) (sym k.0) (correction-Succeeds a at c), rw k.0 k.1)
    | inr (inr (timely, p)) ↦
        let k = accept-ok a at (some c) r e e' (sym p ∙ q) in
        let (target, reasons) = target_of a (some c) in
        inr (subst (Succeeds c) (sym k.1) (next_record-Succeeds a target reasons at c k.0), k.2)
  ]

  -- On a hazard with a current incident, a successful analysis either returns that incident and
  -- changes nothing, or makes a successor of it current: the version goes up by one, the transition
  -- is allowed, identity and first observation stay, and the watermark does not go back.
  pub apply_analysis-Succeeds :
      (a : AnalysisResult Float) (at : Instant) (c r : IncidentRecord Float) (e e' : Engine Float)
      → At a.hazard e c
      → apply_analysis fl ex a at e ≡ (ok r, e')
      → ((r ≡ c) × (e' ≡ e)) ⊎ (Succeeds c r × At a.hazard e' r)
  apply_analysis-Succeeds a at c r e e' h q =
      apply_to-Succeeds a at c r e e' (apply_analysis-At a at c e h ∙ q)

  -- A late analysis never notifies and never moves the state, the confidence or the watermark.
  pub apply_analysis-late :
      (a : AnalysisResult Float) (at : Instant) (c r : IncidentRecord Float) (e e' : Engine Float)
      → At a.hazard e c
      → is_late (event_time_of a) c.event_time_watermark ≡ true
      → apply_analysis fl ex a at e ≡ (ok r, e')
      → (r.state ≡ c.state)
        × (r.confidence ≡ c.confidence)
        × (r.event_time_watermark ≡ c.event_time_watermark)
        × (e'.journal.notification_intents ≡ e.journal.notification_intents)
  unfolding commit correction append_incident_with_notification commit_incident append_authority
  apply_analysis-late a at c r e e' h late q = elim (apply_to-cases a at c e) [
    | inl same ↦ ground (arith, apply_analysis-At a at c e h)
    | inr (inl (l, p)) ↦ ground (arith, apply_analysis-At a at c e h)
    | inr (inr (timely, p)) ↦ cc
  ]

  -- What an analysis is told that it must not strengthen the state by: an abstention or a blind
  -- sensor.
  abbrev pub prevented : AnalysisResult Float → Bool
  prevented a = a.abstained || is_blind a.coverage

  target_of-prevented :
      (a : AnalysisResult Float) (current : Option (IncidentRecord Float))
      → prevented a ≡ true
      → (target_of a current).0 ≡ IncidentState.degraded
  unfolding target_of
  target_of-prevented a current h = ground arith

  allowed-degraded : (s : IncidentState) → allowed s IncidentState.degraded ≡ true
  allowed-degraded s = ground arith

  accept-prevented :
      (a : AnalysisResult Float) (at : Instant) (current : Option (IncidentRecord Float))
      (e : Engine Float)
      → prevented a ≡ true
      → (accept fl ex a at current e).0 ≢ err illegal_transition
  unfolding accept commit
  accept-prevented a at current e h =
      ground (arith, target_of-prevented a current h, allowed-degraded (state_of current))

  next_record-state :
      (a : AnalysisResult Float) (target : IncidentState) (reasons : List String) (at : Instant)
      (current : Option (IncidentRecord Float))
      → (next_record ex a target reasons at current).state ≡ target
  unfolding next_record
  next_record-state a target reasons at none = refl
  next_record-state a target reasons at (some c) = refl

  accept-degraded :
      (a : AnalysisResult Float) (at : Instant) (current : Option (IncidentRecord Float))
      (r : IncidentRecord Float) (e e' : Engine Float)
      → prevented a ≡ true
      → accept fl ex a at current e ≡ (ok r, e')
      → r.state ≡ IncidentState.degraded
  accept-degraded a at current r e e' h q =
      let k = accept-ok a at current r e e' q in
      let (target, reasons) = target_of a current in
      ap (λ (x : IncidentRecord Float). x.state) k.1
      ∙ next_record-state a target reasons at current
      ∙ target_of-prevented a current h

  apply_to-prevented :
      (a : AnalysisResult Float) (at : Instant) (current : Option (IncidentRecord Float))
      (r : IncidentRecord Float) (e e' : Engine Float)
      → prevented a ≡ true
      → apply_to fl ex a at current e ≡ (ok r, e')
      → (r.state ≡ IncidentState.degraded) ⊎ (r.state ≡ state_of current)
  unfolding apply_to correction commit
  apply_to-prevented a at none r e e' h q = inl (accept-degraded a at none r e e' h q)
  apply_to-prevented a at (some c) r e e' h q = elim (apply_to-cases a at c e) [
    | inl same ↦ inr (ground arith)
    | inr (inl (late, p)) ↦ inr (ground arith)
    | inr (inr (timely, p)) ↦ inl (accept-degraded a at (some c) r e e' h (sym p ∙ q))
  ]

  apply_to-not_illegal :
      (a : AnalysisResult Float) (at : Instant) (current : Option (IncidentRecord Float))
      (e : Engine Float)
      → prevented a ≡ true
      → (apply_to fl ex a at current e).0 ≢ err illegal_transition
  unfolding apply_to commit
  apply_to-not_illegal a at none e h = accept-prevented a at none e h
  apply_to-not_illegal a at (some c) e h = ground (arith, accept-prevented a at (some c) e h)

  -- An analysis that abstains or is blind is never refused as an illegal transition.
  pub apply_analysis-not_illegal :
      (a : AnalysisResult Float) (at : Instant) (e : Engine Float)
      → prevented a ≡ true
      → (apply_analysis fl ex a at e).0 ≢ err illegal_transition
  unfolding apply_analysis
  apply_analysis-not_illegal a at e h = apply_to-not_illegal a at (lookup a.hazard e.current) e h

  -- Where an analysis that abstains or is blind succeeds, the incident is degraded or keeps the
  -- state that it had.
  pub apply_analysis-prevented :
      (a : AnalysisResult Float) (at : Instant) (r : IncidentRecord Float) (e e' : Engine Float)
      → prevented a ≡ true
      → apply_analysis fl ex a at e ≡ (ok r, e')
      → (r.state ≡ IncidentState.degraded) ⊎ (r.state ≡ state_of (lookup a.hazard e.current))
  unfolding apply_analysis
  apply_analysis-prevented a at r e e' h q =
      apply_to-prevented a at (lookup a.hazard e.current) r e e' h q
