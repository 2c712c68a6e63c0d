-- ===== src/Incidents/Analysis.antt =====
-- `IncidentEventEngine.apply_analysis` of src/sentinel_edge/incidents/engine.py. `accepted_at` is
-- the argument, or the time of the call where it is not given.
use Prim.Native.Nat.{max}
use sentinel_edge.Prelude.{
  ltb, leb, ◌==◌, if◌then◌else◌, or_default, any, Result, lookup, sorted_set, Floats, ℕ, ◌+◌,
  String, Bool, true, false, not, ◌&&◌, ◌||◌, Option, none, some, List, [], ◌∷◌, ◌++◌, ok, err,
}
use sentinel_edge.Domain.Kinds.{Uuid, Instant, IncidentState, IncidentLabel, CoverageState}
use sentinel_edge.Domain.Kinds.Equality.{hazard_eq, is_confirmed}
use sentinel_edge.Domain.Records.{AnalysisResult, IncidentRecord}
use sentinel_edge.Incidents.{
  Engine, EngineError, Externals, allowed, illegal_transition, state_of, notification_for, commit,
}

-- `state_rank.get(state, 0)`
abbrev pub state_rank : IncidentState → ℕ
state_rank IncidentState.watch = 1
state_rank IncidentState.suspected = 2
state_rank IncidentState.confirmed = 3
state_rank IncidentState.degraded = 1
state_rank IncidentState.resolving = 1
state_rank _ = 0

abbrev pub is_blind : CoverageState → Bool
is_blind CoverageState.blind = true
is_blind _ = false

-- A hint of `normal` on an open incident opens the resolution window.
abbrev pub windowed : IncidentState → IncidentState → IncidentState × List String
windowed IncidentState.normal IncidentState.suspected =
    (IncidentState.resolving, "negative_evidence_requires_resolution_window" ∷ [])
windowed IncidentState.normal IncidentState.confirmed =
    (IncidentState.resolving, "negative_evidence_requires_resolution_window" ∷ [])
windowed target previous = (target, [])

abbrev pub is_late : Instant → Option Instant → Bool
is_late event_time none = false
is_late event_time (some watermark) = ltb event_time watermark

abbrev pub watermark_after : Instant → Option Instant → Instant
watermark_after event_time none = event_time
watermark_after event_time (some watermark) = max event_time watermark

abbrev pub label_of : Bool → IncidentState → IncidentLabel
label_of abstained target =
    if abstained
    then IncidentLabel.uncertain
    else if is_confirmed target
    then IncidentLabel.confirm
    else IncidentLabel.reject

module _ {Float : Type 0} where
  abbrev pub event_time_of : AnalysisResult Float → Instant
  event_time_of a = or_default a.event_time a.produced_at

  -- The target state and the reasons that its choice adds.
  unfoldable pub target_of :
      AnalysisResult Float → Option (IncidentRecord Float) → IncidentState × List String
  target_of a current =
      let prevented = a.abstained || is_blind a.coverage in
      let (target, reasons) =
        windowed (if prevented then IncidentState.degraded else a.state_hint) (state_of current) in
      (
        target,
        a.reason_codes
            ++ ((if prevented then "coverage_prevents_strong_state" ∷ [] else []) ++ reasons),
      )

  -- The first record of a hazard, and the one that follows a current record.
  unfoldable pub next_record :
      Externals Float
      → AnalysisResult Float
      → IncidentState
      → List String
      → Instant
      → Option (IncidentRecord Float)
      → IncidentRecord Float
  next_record ex a target reasons accepted_at none = record {
    incident_id = or_default a.incident_id_hint (ex.incident_uuid a.hazard a.correlation_id);
    hazard = a.hazard;
    state = target;
    confidence = a.score;
    coverage = a.coverage;
    source_mode = a.source_mode;
    first_observed_at = event_time_of a;
    last_observed_at = accepted_at;
    event_time_watermark = some (event_time_of a);
    version = 1;
    reason_codes = sorted_set reasons;
    analysis_ids = a.analysis_id ∷ [];
    correlation_ids = a.correlation_id ∷ [];
    last_boot_id = a.boot_id;
    source_lineage = a.source_lineage;
    model_profile_id = a.model_profile_id;
    config_hashes = a.config_hashes;
    labels = label_of a.abstained target ∷ [];
  }
  next_record ex a target reasons accepted_at (some c) = record {
    incident_id = c.incident_id;
    hazard = a.hazard;
    state = target;
    confidence = a.score;
    coverage = a.coverage;
    source_mode = a.source_mode;
    first_observed_at = c.first_observed_at;
    last_observed_at = accepted_at;
    event_time_watermark = some (watermark_after (event_time_of a) c.event_time_watermark);
    version = c.version + 1;
    reason_codes = sorted_set (c.reason_codes ++ reasons);
    analysis_ids = c.analysis_ids ++ a.analysis_id ∷ [];
    correlation_ids = c.correlation_ids ++ a.correlation_id ∷ [];
    last_boot_id = a.boot_id;
    source_lineage = a.source_lineage;
    model_profile_id = a.model_profile_id;
    config_hashes = a.config_hashes;
    labels = c.labels ++ label_of a.abstained target ∷ [];
  }

  -- A late correction, which only adds to the history.
  unfoldable pub correction :
      AnalysisResult Float → Instant → IncidentRecord Float → IncidentRecord Float
  correction a accepted_at c = record c {
    last_observed_at = accepted_at;
    version = c.version + 1;
    reason_codes =
        sorted_set (c.reason_codes ++ (a.reason_codes ++ "late_context_correction" ∷ []));
    analysis_ids = c.analysis_ids ++ a.analysis_id ∷ [];
    correlation_ids = c.correlation_ids ++ a.correlation_id ∷ [];
  }

  abbrev pub knows : IncidentRecord Float → Uuid → Bool
  knows c id = any (λ j. j == id) c.analysis_ids

module _ (fl : Floats) (ex : Externals fl.Float) where
  open fl use {Float, float_le}

  -- A late analysis that strengthens nothing is dropped.
  abbrev pub adds_nothing : AnalysisResult Float → IncidentRecord Float → Bool
  adds_nothing a c =
      float_le a.score c.confidence && leb (state_rank a.state_hint) (state_rank c.state)

  unfoldable pub accept :
      AnalysisResult Float
      → Instant
      → Option (IncidentRecord Float)
      → Engine Float
      → Result EngineError (IncidentRecord Float) × Engine Float
  accept a accepted_at current e =
      let (target, reasons) = target_of a current in
      let r = next_record ex a target reasons accepted_at current in
      if not (allowed (state_of current) target)
      then (err illegal_transition, e)
      else commit ex a.hazard r (notification_for ex e r (state_of current) accepted_at) e

  unfoldable pub apply_to :
      AnalysisResult Float
      → Instant
      → Option (IncidentRecord Float)
      → Engine Float
      → Result EngineError (IncidentRecord Float) × Engine Float
  apply_to a accepted_at none e = accept a accepted_at none e
  apply_to a accepted_at (some c) e =
      if knows c a.analysis_id
      then (ok c, e)
      else if is_late (event_time_of a) c.event_time_watermark
      then (if adds_nothing a c
          then (ok c, e)
          else commit ex a.hazard (correction a accepted_at c) none e)
      else accept a accepted_at (some c) e

  unfoldable pub apply_analysis :
      AnalysisResult Float
      → Instant
      → Engine Float
      → Result EngineError (IncidentRecord Float) × Engine Float
  apply_analysis a accepted_at e = apply_to a accepted_at (lookup a.hazard e.current) e
