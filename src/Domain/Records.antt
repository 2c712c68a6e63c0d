-- ===== src/Domain/Records.antt =====
-- The records of src/sentinel_edge/domain/models.py that the incident engine reads and writes, over
-- the type of floating-point numbers.
use sentinel_edge.Prelude.{Dict, ℕ, String, Bool, Option, List}
use sentinel_edge.Domain.Kinds.{
  Uuid, Instant, HazardKind, SourceMode, CoverageState, IncidentState, IncidentLabel,
  IncidentRelationKind, IncidentCommandKind, ReviewActionKind, NotificationStatus, CommandStatus,
}

pub record AnalysisResult (Float : Type 0) : Type 0 where
  pub analysis_id : Uuid
  pub observation_id : Uuid
  pub correlation_id : Uuid
  pub boot_id : String
  pub source_mode : SourceMode
  pub hazard : HazardKind
  pub score : Float
  pub state_hint : IncidentState
  pub features : Dict String Float
  pub coverage : CoverageState
  pub abstained : Bool
  pub reason_codes : List String
  pub model_profile_id : String
  pub source_lineage : String
  pub config_hashes : List String
  pub incident_id_hint : Option Uuid
  pub produced_at : Instant
  pub event_time : Option Instant

pub record IncidentRecord (Float : Type 0) : Type 0 where
  pub incident_id : Uuid
  pub hazard : HazardKind
  pub state : IncidentState
  pub confidence : Float
  pub coverage : CoverageState
  pub source_mode : SourceMode
  pub first_observed_at : Instant
  pub last_observed_at : Instant
  pub event_time_watermark : Option Instant
  pub version : ℕ
  pub reason_codes : List String
  pub analysis_ids : List Uuid
  pub correlation_ids : List Uuid
  pub last_boot_id : String
  pub source_lineage : String
  pub model_profile_id : String
  pub config_hashes : List String
  pub labels : List IncidentLabel

pub record IncidentRelation (Float : Type 0) : Type 0 where
  pub relation_id : Uuid
  pub source_incident_id : Uuid
  pub source_hazard : HazardKind
  pub target_incident_id : Uuid
  pub target_hazard : HazardKind
  pub relation : IncidentRelationKind
  pub confidence : Float
  pub expected_source_version : ℕ
  pub expected_target_version : ℕ
  pub created_at : Instant
  pub actor : String
  pub reason : String

pub record IncidentStatusCommand : Type 0 where
  pub command_id : Uuid
  pub incident_id : Uuid
  pub hazard : HazardKind
  pub command : IncidentCommandKind
  pub expected_version : ℕ
  pub actor : String
  pub reason : String
  pub related_incident_id : Option Uuid
  pub related_hazard : Option HazardKind
  pub idempotency_key : String
  pub submitted_at : Instant

pub record ReviewAction : Type 0 where
  pub review_id : Uuid
  pub incident_id : Uuid
  pub hazard : HazardKind
  pub action : ReviewActionKind
  pub actor : String
  pub created_at : Instant
  pub snooze_until : Option Instant
  pub note : Option String

pub record IncidentReviewState : Type 0 where
  pub incident_id : Uuid
  pub acknowledged_at : Option Instant
  pub acknowledged_by : Option String
  pub snoozed_until : Option Instant
  pub snoozed_by : Option String
  pub review_count : ℕ

-- The text `incident:{id}:version:{version}:state:{state}`, which its three parts determine.
pub record NotificationKey : Type 0 where
  pub incident_id : Uuid
  pub version : ℕ
  pub state : IncidentState

pub record NotificationIntent : Type 0 where
  pub notification_id : Uuid
  pub incident_id : Uuid
  pub hazard : HazardKind
  pub incident_version : ℕ
  pub incident_state : IncidentState
  pub idempotency_key : NotificationKey
  pub status : NotificationStatus
  pub created_at : Instant
  pub updated_at : Instant
  pub attempt_count : ℕ
  pub max_attempts : ℕ
  pub last_error : Option String
  pub receipt_id : Option String
  pub reason_codes : List String

-- The texts `incidents:{command}` and `incidents:{review action}`.
pub data Operation : Type 0 where
  status : IncidentCommandKind → Operation
  reviewing : ReviewActionKind → Operation

-- The texts `incident-status:{id}:{command}` and `incident:{id}`.
pub data Target : Type 0 where
  status : Uuid → IncidentCommandKind → Target
  incident : Uuid → Target

pub record CommandReceipt : Type 0 where
  pub command_id : Uuid
  pub principal_id : String
  pub operation : Operation
  pub target : Target
  pub scoped_idempotency_key : String
  pub payload_sha256 : String
  pub status : CommandStatus
  pub accepted_at : Instant
  pub committed_at : Option Instant
  pub result_version : Option ℕ
  pub result_sha256 : Option String
  pub reason_codes : List String
