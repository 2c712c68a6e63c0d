-- ===== src/Incidents/Requests.antt =====
-- The rules for `IncidentStatusCommand` and `IncidentRelation` (src/sentinel_edge/domain/models.py),
-- and those of `apply_status_command` (src/sentinel_edge/incidents/engine.py).
use sentinel_edge.Prelude.{
  ◌==◌, if◌then◌else◌, is_some, any, Result, is_blank, String, Bool, true, false, not, ◌&&◌, ◌||◌,
  List, [], ◌∷◌, ◌++◌, ok, err,
}
use sentinel_edge.Domain.Kinds.{
  IncidentState, IncidentLabel, IncidentCommandKind, IncidentRelationKind,
}
use sentinel_edge.Domain.Kinds.Equality.{same_hazard, is_relating, is_confirmed}
use sentinel_edge.Domain.Records.{IncidentRecord, IncidentRelation, IncidentStatusCommand}
use sentinel_edge.Incidents.{
  EngineError, CommandPayload, merge_across_hazards, link_same_hazard, blind_sensor,
  unreviewed_confirmed, only_resolved_reopens,
}
use sentinel_edge.Incidents.Analysis.{is_blind}

-- The result of a command: a new or current record, or a relation.
pub data Outcome (Float : Type 0) : Type 0 where
  revised : IncidentRecord Float → Outcome Float
  related : IncidentRelation Float → Outcome Float

abbrev pub payload_of : IncidentStatusCommand → CommandPayload
payload_of c = record {
  incident_id = c.incident_id;
  hazard = c.hazard;
  command = c.command;
  expected_version = c.expected_version;
  actor = c.actor;
  reason = c.reason;
  related_incident_id = c.related_incident_id;
  related_hazard = c.related_hazard;
  idempotency_key = c.idempotency_key;
}

-- `IncidentStatusCommand.validate_incident_command`
unfoldable pub validate_incident_command : IncidentStatusCommand → Bool
validate_incident_command c =
    not (is_blank c.actor || is_blank c.reason || is_blank c.idempotency_key)
    && (if is_relating c.command
        then is_some c.related_incident_id && is_some c.related_hazard
        else not (is_some c.related_incident_id || is_some c.related_hazard))

abbrev pub command_text : IncidentCommandKind → String
command_text IncidentCommandKind.corroborate = "operator_corroborate"
command_text IncidentCommandKind.contradict = "operator_contradict"
command_text IncidentCommandKind.control = "operator_control"
command_text IncidentCommandKind.resolve = "operator_resolve"
command_text IncidentCommandKind.reopen = "operator_reopen"
command_text IncidentCommandKind.link = "operator_link"
command_text IncidentCommandKind.merge = "operator_merge"

abbrev is_merged_alias : IncidentRelationKind → Bool
is_merged_alias IncidentRelationKind.merged_alias = true
is_merged_alias _ = false

abbrev is_control : IncidentLabel → Bool
is_control IncidentLabel.control = true
is_control _ = false

abbrev pub labels_after : IncidentCommandKind → List IncidentLabel → List IncidentLabel
labels_after IncidentCommandKind.control labels =
    if any is_control labels then labels else labels ++ IncidentLabel.control ∷ []
labels_after _ labels = labels

abbrev pub control_reason : IncidentCommandKind → List String
control_reason IncidentCommandKind.control = "controlled_activity_recorded" ∷ []
control_reason _ = []

module _ {Float : Type 0} where
  -- `IncidentRelation.validate_relation`
  unfoldable pub validate_relation : IncidentRelation Float → Bool
  validate_relation r =
      not (r.source_incident_id == r.target_incident_id)
      && not (is_blank r.actor || is_blank r.reason)
      && (is_merged_alias r.relation || not (same_hazard r.source_hazard r.target_hazard))

  -- The kind of a relation between two incidents, or the refusal.
  unfoldable pub relation_kind :
      IncidentCommandKind
      → IncidentRecord Float
      → IncidentRecord Float
      → Result EngineError IncidentRelationKind
  relation_kind IncidentCommandKind.merge current other =
      if same_hazard other.hazard current.hazard
      then ok IncidentRelationKind.merged_alias
      else err merge_across_hazards
  relation_kind _ current other =
      if same_hazard other.hazard current.hazard
      then err link_same_hazard
      else ok IncidentRelationKind.temporal_association

  -- The state that a command asks for. `acknowledged` is whether the review has an acknowledgement.
  unfoldable pub command_target :
      IncidentCommandKind
      → IncidentRecord Float
      → (acknowledged : Bool) → Result EngineError IncidentState
  command_target IncidentCommandKind.resolve c acknowledged =
      if is_blind c.coverage
      then err blind_sensor
      else if is_confirmed c.state && not acknowledged
      then err unreviewed_confirmed
      else ok (elim c.state [
        | IncidentState.resolving ↦ IncidentState.resolved
        | _ ↦ IncidentState.resolving
      ])
  command_target IncidentCommandKind.reopen c acknowledged = elim c.state [
    | IncidentState.resolved ↦ ok IncidentState.suspected
    | _ ↦ err only_resolved_reopens
  ]
  command_target _ c acknowledged = ok c.state
