-- ===== src/Domain/Kinds.antt =====
-- The enumerations of src/sentinel_edge/domain/models.py, with the comparisons the code makes.
pub mod Equality
use sentinel_edge.Prelude.{ℕ}

abbrev pub Uuid : Type 0
Uuid = ℕ

abbrev pub Instant : Type 0
Instant = ℕ

pub data HazardKind : Type 0 where
  wildfire flood earthquake landslide : HazardKind

pub data SourceMode : Type 0 where
  live cached simulated fixture replayed : SourceMode

pub data RuntimeMode : Type 0 where
  judge benchmark field_lab development : RuntimeMode

pub data CoverageState : Type 0 where
  sufficient partial blind : CoverageState

pub data IncidentState : Type 0 where
  normal watch suspected confirmed resolving resolved degraded : IncidentState

pub data CriticalityTier : Type 0 where
  a_immediate b_urgent c_timely d_periodic e_background : CriticalityTier

-- The `IntEnum` value.
abbrev pub tier_value : CriticalityTier → ℕ
tier_value a_immediate = 0
tier_value b_urgent = 1
tier_value c_timely = 2
tier_value d_periodic = 3
tier_value e_background = 4

pub data JobStatus : Type 0 where
  queued running completed deferred rejected cancelled : JobStatus

pub data OpportunityDisposition : Type 0 where
  offered queued deferred processed skipped replaced invalid dropped expired failed :
      OpportunityDisposition
  deadline_missed : OpportunityDisposition

pub data ReviewActionKind : Type 0 where
  acknowledge snooze unsnooze comment : ReviewActionKind

pub data NotificationStatus : Type 0 where
  pending delivered failed suppressed expired dead_letter : NotificationStatus

pub data AuthorityMutationKind : Type 0 where
  incident review notification_intent notification_delivery configuration : AuthorityMutationKind
  command evidence claim claim_link incident_relation : AuthorityMutationKind
  evidence_lifecycle media_parse evidence_reevaluation disposition : AuthorityMutationKind

pub data IncidentRelationKind : Type 0 where
  cascade_context susceptibility_increase temporal_association : IncidentRelationKind
  same_event_solution merged_alias : IncidentRelationKind

pub data IncidentCommandKind : Type 0 where
  corroborate contradict control resolve reopen link merge : IncidentCommandKind

pub data IncidentLabel : Type 0 where
  confirm reject uncertain control : IncidentLabel

pub data CommandStatus : Type 0 where
  accepted validating committed projected rejected expired superseded conflict : CommandStatus
