-- ===== src/Incidents.antt =====
-- `IncidentEventEngine` of src/sentinel_edge/incidents/engine.py: the lifecycle of the incidents.
pub mod Analysis
pub mod Requests
pub mod Commands
pub mod Concurrency
pub mod Idempotence
pub mod Guarantees
pub mod Projection
pub mod Restart
pub mod Conformance
pub mod Examples
pub mod Review
pub mod Authorized
pub mod Lifecycle
pub mod Replay
use sentinel_edge.Prelude.{
  ltb, leb, ◌==◌, if◌then◌else◌, keep, Result, Dict, insert, ℕ, String, Bool, true, false, not,
  ◌&&◌, ◌||◌, Option, none, some, List, [], ◌∷◌, ◌++◌, ok, err,
}
use sentinel_edge.Domain.Kinds.{
  Uuid, Instant, HazardKind, IncidentState, IncidentCommandKind, NotificationStatus,
}
use sentinel_edge.Domain.Kinds.Equality.{hazard_eq, same_state, is_confirmed}
use sentinel_edge.Domain.Records.{
  IncidentRecord, IncidentRelation, NotificationIntent, NotificationKey, Target,
}
use sentinel_edge.Storage.Journal.{AuthorityPayload, JournalStore, StoreError}
use sentinel_edge.Storage.Journal.Reads.{
  latest_by_hazard, review_state, notification_count, all_incidents,
}
use sentinel_edge.Storage.Journal.Writes.{append_incident_with_notification}

-- `target in _ALLOWED[previous]`
abbrev pub allowed : IncidentState → IncidentState → Bool
allowed IncidentState.normal IncidentState.resolving = false
allowed IncidentState.normal IncidentState.resolved = false
allowed IncidentState.normal _ = true
allowed IncidentState.watch IncidentState.resolving = false
allowed IncidentState.watch IncidentState.resolved = false
allowed IncidentState.watch _ = true
allowed IncidentState.suspected IncidentState.normal = false
allowed IncidentState.suspected IncidentState.resolved = false
allowed IncidentState.suspected _ = true
allowed IncidentState.confirmed IncidentState.confirmed = true
allowed IncidentState.confirmed IncidentState.resolving = true
allowed IncidentState.confirmed IncidentState.degraded = true
allowed IncidentState.confirmed _ = false
allowed IncidentState.resolving IncidentState.confirmed = true
allowed IncidentState.resolving IncidentState.resolving = true
allowed IncidentState.resolving IncidentState.resolved = true
allowed IncidentState.resolving IncidentState.degraded = true
allowed IncidentState.resolving _ = false
allowed IncidentState.resolved IncidentState.normal = false
allowed IncidentState.resolved IncidentState.resolving = false
allowed IncidentState.resolved _ = true
allowed IncidentState.degraded IncidentState.degraded = true
allowed IncidentState.degraded IncidentState.watch = true
allowed IncidentState.degraded IncidentState.suspected = true
allowed IncidentState.degraded IncidentState.confirmed = true
allowed IncidentState.degraded _ = false

-- `state in _NOTIFY_STATES`
abbrev pub notifies : IncidentState → Bool
notifies IncidentState.watch = true
notifies IncidentState.suspected = true
notifies IncidentState.confirmed = true
notifies IncidentState.degraded = true
notifies _ = false

pub data EngineError : Type 0 where
  illegal_transition command_target_not_found key_conflict stale_command related_not_found :
      EngineError
  merge_across_hazards link_same_hazard relation_invalid assertion_failed blind_sensor : EngineError
  unreviewed_confirmed only_resolved_reopens review_target_not_current : EngineError
  store : StoreError → EngineError

-- What a status command signs: its fields without the command's identity and time.
pub record CommandPayload : Type 0 where
  pub incident_id : Uuid
  pub hazard : HazardKind
  pub command : IncidentCommandKind
  pub expected_version : ℕ
  pub actor : String
  pub reason : String
  pub related_incident_id : Option Uuid
  pub related_hazard : Option HazardKind
  pub idempotency_key : String

-- SHA-256 digests of canonical JSON, name-based UUIDs and the text of a UUID.
pub record Externals (Float : Type 0) : Type 0 where
  pub authority_digest : AuthorityPayload Float → String
  pub relation_digest : IncidentRelation Float → String
  pub record_digest : IncidentRecord Float → String
  pub command_digest : CommandPayload → String
  pub scope_digest : String → Target → String → String
  pub incident_uuid : HazardKind → Uuid → Uuid
  pub notification_uuid : NotificationKey → Uuid
  pub relation_uuid : Uuid → Uuid
  pub uuid_text : Uuid → String

pub record Engine (Float : Type 0) : Type 0 where
  pub journal : JournalStore Float
  pub current : Dict HazardKind (IncidentRecord Float)
  pub notification_budget : ℕ

module _ {Float : Type 0} where
  -- `{item.hazard: item for item in items}`
  unfoldable pub by_hazard :
      List (IncidentRecord Float)
      → Dict HazardKind (IncidentRecord Float)
      → Dict HazardKind (IncidentRecord Float)
  by_hazard [] d = d
  by_hazard (r ∷ rs) d = by_hazard rs (insert r.hazard r d)

  -- `__init__`
  unfoldable pub init : JournalStore Float → ℕ → Engine Float
  init s budget = record {
    journal = s;
    current = by_hazard (latest_by_hazard s) [];
    notification_budget = budget;
  }

  -- `current_state` of an optional record.
  abbrev pub state_of : Option (IncidentRecord Float) → IncidentState
  state_of none = IncidentState.normal
  state_of (some c) = c.state

  -- `max(history, key=version)`: the first record of the highest version.
  abbrev pub newest : List (IncidentRecord Float) → Option (IncidentRecord Float)
  newest [] = none
  newest (r ∷ rs) = elim (newest rs) [
    | none ↦ some r
    | some m ↦ if ltb r.version m.version then some m else some r
  ]

  abbrev pub current_with :
      Uuid → Dict HazardKind (IncidentRecord Float) → Option (IncidentRecord Float)
  current_with id [] = none
  current_with id ((h, r) ∷ d) = if r.incident_id == id then some r else current_with id d

  unfoldable pub incident_by_id : Engine Float → Uuid → Option (IncidentRecord Float)
  incident_by_id e id = elim (current_with id e.current) [
    | some r ↦ some r
    | none ↦ newest (keep (λ r. r.incident_id == id) (all_incidents e.journal.incident_events))
  ]

  module _ (ex : Externals Float) where
    -- Status and reasons of a new intent: snooze first, then the budget.
    abbrev snoozed_at : Option Instant → Instant → Bool
    snoozed_at none at = false
    snoozed_at (some until) at = ltb at until

    abbrev intent_status : (snoozed spent confirmed : Bool) → NotificationStatus
    intent_status snoozed spent confirmed =
        if (snoozed || spent) && not confirmed
        then NotificationStatus.suppressed
        else NotificationStatus.pending

    abbrev intent_reasons : (snoozed spent confirmed : Bool) → List String
    intent_reasons snoozed spent confirmed =
        "incident_state_changed"
        ∷ ((if snoozed
              then (if confirmed then "snooze_overridden_by_confirmation" else "incident_snoozed")
                ∷ []
              else [])
            ++ (if spent && not confirmed then "notification_budget_exhausted" ∷ [] else []))

    unfoldable pub notification_for :
        Engine Float → IncidentRecord Float → IncidentState → Instant → Option NotificationIntent
    notification_for e r previous_state accepted_at =
        let snoozed = snoozed_at (review_state e.journal r.incident_id).snoozed_until accepted_at in
        let spent = leb e.notification_budget (notification_count e.journal r.incident_id) in
        let confirmed = is_confirmed r.state in
        let key : NotificationKey = record {
          incident_id = r.incident_id;
          version = r.version;
          state = r.state;
        } in
        if not (notifies r.state) || same_state r.state previous_state
        then none
        else some (record {
          notification_id = ex.notification_uuid key;
          incident_id = r.incident_id;
          hazard = r.hazard;
          incident_version = r.version;
          incident_state = r.state;
          idempotency_key = key;
          status = intent_status snoozed spent confirmed;
          created_at = accepted_at;
          updated_at = accepted_at;
          attempt_count = 0;
          max_attempts = 3;
          last_error = none;
          receipt_id = none;
          reason_codes = intent_reasons snoozed spent confirmed;
        })

    -- `append_incident_with_notification`, then the new record becomes the hazard's current one.
    unfoldable pub commit :
        HazardKind
        → IncidentRecord Float
        → Option NotificationIntent
        → Engine Float
        → Result EngineError (IncidentRecord Float) × Engine Float
    commit hazard r intent e =
        let (outcome, s) =
          append_incident_with_notification ex.authority_digest r intent e.journal in
        elim outcome [
          | ok inserted ↦ (ok r, record e { journal = s; current = insert hazard r e.current })
          | err x ↦ (err (store x), e)
        ]
