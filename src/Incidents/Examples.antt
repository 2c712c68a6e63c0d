-- ===== src/Incidents/Examples.antt =====
-- A small incident history, with tests of the engine and its theorems at concrete inputs.
pub mod Commands
pub mod Restart
pub mod Reviews
use sentinel_edge.Prelude.{
  ltb, leb, Result, nat_eq, lookup, Floats, ℕ, ◌+◌, ◌-◌, ◌*◌, ◌/◌, ◌≡◌, refl, ◌≢◌, ◌⊎◌, false, none,
  some, [], ◌∷◌, ok, err,
}
use sentinel_edge.Domain.Kinds.{HazardKind, IncidentState, CoverageState, SourceMode}
use sentinel_edge.Domain.Kinds.Equality.{hazard_eq}
use sentinel_edge.Domain.Records.{AnalysisResult, IncidentRecord}
use sentinel_edge.Storage.Journal.{empty_store, append_authority}
use sentinel_edge.Storage.Journal.Reads.{review_state, notification_count}
use sentinel_edge.Storage.Journal.Writes.{
  append_incident_with_notification, commit_incident, commit_notification,
}
use sentinel_edge.Incidents.{
  Engine, EngineError, Externals, commit, notification_for, state_of, illegal_transition,
}
use sentinel_edge.Incidents.Analysis.{
  target_of, next_record, correction, accept, apply_to, apply_analysis,
}
use sentinel_edge.Incidents.Lifecycle.{
  At, Succeeds, apply_analysis-Succeeds, apply_analysis-late, apply_analysis-prevented,
  apply_analysis-not_illegal,
}
use sentinel_edge.Incidents.Replay.{apply_analysis-again}

-- Hundredths for the floating-point numbers.
abbrev pub hundredths_only : Floats
hundredths_only = record {
  Float = ℕ;
  float_lt = ltb;
  float_le = leb;
  float_add = λ a b. a + b;
  float_sub = λ a b. a - b;
  float_div = λ a b. a / b;
  hundredths = λ n. n;
  of_nat = λ n. n * 100;
}

abbrev pub plain : Externals ℕ
plain = record {
  authority_digest = λ p. "authority";
  relation_digest = λ r. "relation";
  record_digest = λ r. "record";
  command_digest = λ c. c.reason;
  scope_digest = λ actor target key. key;
  incident_uuid = λ h u. u + 1;
  notification_uuid = λ k. k.incident_id * 100 + k.version;
  relation_uuid = λ u. u + 7;
  uuid_text = λ u. "uuid";
}

abbrev analysis : ℕ → IncidentState → ℕ → ℕ → CoverageState → AnalysisResult ℕ
analysis id hint score time coverage = record {
  analysis_id = id;
  observation_id = 1;
  correlation_id = 1;
  boot_id = "boot-1";
  source_mode = SourceMode.live;
  hazard = HazardKind.wildfire;
  score = score;
  state_hint = hint;
  features = [];
  coverage = coverage;
  abstained = false;
  reason_codes = "smoke" ∷ [];
  model_profile_id = "m1";
  source_lineage = "sensor";
  config_hashes = [];
  incident_id_hint = some 40;
  produced_at = time;
  event_time = none;
}

abbrev pub smoke : AnalysisResult ℕ
smoke = analysis 11 IncidentState.suspected 60 100 CoverageState.sufficient

abbrev pub flames : AnalysisResult ℕ
flames = analysis 12 IncidentState.confirmed 90 200 CoverageState.sufficient

-- Older than what is known, and stronger than it.
abbrev late_flames : AnalysisResult ℕ
late_flames = analysis 13 IncidentState.confirmed 90 50 CoverageState.sufficient

abbrev blinded : AnalysisResult ℕ
blinded = analysis 14 IncidentState.confirmed 90 300 CoverageState.blind

abbrev empty_engine : Engine ℕ
empty_engine = record { journal = empty_store; current = []; notification_budget = 2 }

abbrev apply : AnalysisResult ℕ → ℕ → Engine ℕ → Result EngineError (IncidentRecord ℕ) × Engine ℕ
apply a at e = apply_analysis hundredths_only plain a at e

abbrev first_record : IncidentRecord ℕ
first_record = next_record plain smoke IncidentState.suspected ("smoke" ∷ []) 110 none

abbrev one : Engine ℕ
one = (apply smoke 110 empty_engine).1

smoke-applied : apply smoke 110 empty_engine ≡ (ok first_record, one)
unfolding apply_analysis apply_to accept target_of next_record commit notification_for
    append_incident_with_notification commit_incident commit_notification append_authority
    review_state notification_count
smoke-applied = refl

abbrev second_record : IncidentRecord ℕ
second_record =
    next_record plain flames IncidentState.confirmed ("smoke" ∷ []) 210 (some first_record)

abbrev two : Engine ℕ
two = (apply flames 210 one).1

flames-applied : apply flames 210 one ≡ (ok second_record, two)
unfolding apply_analysis apply_to accept target_of next_record commit notification_for
    append_incident_with_notification commit_incident commit_notification append_authority
    review_state notification_count
flames-applied = refl

apply_analysis-Succeeds_example :
    ((second_record ≡ first_record) × (two ≡ one))
    ⊎ (Succeeds first_record second_record × At HazardKind.wildfire two second_record)
unfolding apply_analysis apply_to accept target_of next_record commit notification_for
    append_incident_with_notification commit_incident commit_notification append_authority
    review_state notification_count
apply_analysis-Succeeds_example =
    apply_analysis-Succeeds hundredths_only plain flames 210 first_record second_record one two refl
      flames-applied

apply_analysis-again_example : apply flames 900 two ≡ (ok second_record, two)
apply_analysis-again_example =
    apply_analysis-again hundredths_only plain flames 210 900 second_record one two flames-applied

abbrev corrected : IncidentRecord ℕ
corrected = correction late_flames 220 first_record

abbrev after_correction : Engine ℕ
after_correction = (apply late_flames 220 one).1

late_flames-applied : apply late_flames 220 one ≡ (ok corrected, after_correction)
unfolding apply_analysis apply_to accept target_of next_record correction commit notification_for
    append_incident_with_notification commit_incident commit_notification append_authority
    review_state notification_count
late_flames-applied = refl

apply_analysis-late_example :
    (corrected.state ≡ first_record.state)
    × (corrected.confidence ≡ first_record.confidence)
    × (corrected.event_time_watermark ≡ first_record.event_time_watermark)
    × (after_correction.journal.notification_intents ≡ one.journal.notification_intents)
unfolding apply_analysis apply_to accept target_of next_record correction commit notification_for
    append_incident_with_notification commit_incident commit_notification append_authority
    review_state notification_count
apply_analysis-late_example =
    apply_analysis-late hundredths_only plain late_flames 220 first_record corrected one
      after_correction refl refl late_flames-applied

abbrev blind_record : IncidentRecord ℕ
blind_record =
    next_record plain blinded IncidentState.degraded
      ("smoke" ∷ "coverage_prevents_strong_state" ∷ []) 310 (some first_record)

abbrev after_blind : Engine ℕ
after_blind = (apply blinded 310 one).1

blinded-applied : apply blinded 310 one ≡ (ok blind_record, after_blind)
unfolding apply_analysis apply_to accept target_of next_record commit notification_for
    append_incident_with_notification commit_incident commit_notification append_authority
    review_state notification_count
blinded-applied = refl

apply_analysis-prevented_example :
    (blind_record.state ≡ IncidentState.degraded)
    ⊎ (blind_record.state ≡ state_of (lookup HazardKind.wildfire one.current))
apply_analysis-prevented_example =
    apply_analysis-prevented hundredths_only plain blinded 310 blind_record one after_blind refl
      blinded-applied

apply_analysis-not_illegal_example : (apply blinded 310 one).0 ≢ err illegal_transition
apply_analysis-not_illegal_example =
    apply_analysis-not_illegal hundredths_only plain blinded 310 one refl
