-- ===== src/Incidents/Commands.antt =====
-- `IncidentEventEngine.apply_status_command` of src/sentinel_edge/incidents/engine.py. A command is
-- one that `IncidentStatusCommand` has validated.
use sentinel_edge.Prelude.{
  ◌==◌, if◌then◌else◌, is_some, first, Result, sorted_set, Floats, float_min, float_max, ℕ, ◌+◌,
  String, false, not, none, some, [], ◌∷◌, ◌++◌, str_eq, ok, err,
}
use sentinel_edge.Domain.Kinds.{
  IncidentState, IncidentCommandKind, IncidentRelationKind, CommandStatus,
}
use sentinel_edge.Domain.Kinds.Equality.{same_hazard, is_relating}
use sentinel_edge.Domain.Records.{
  IncidentRecord, IncidentRelation, IncidentStatusCommand, CommandReceipt, Operation, Target,
}
use sentinel_edge.Storage.Journal.Reads.{review_state, command_receipt}
use sentinel_edge.Storage.Journal.Writes.{record_command_receipt, record_incident_relation}
use sentinel_edge.Incidents.{
  Engine, EngineError, Externals, allowed, incident_by_id, notification_for, commit,
  illegal_transition, command_target_not_found, key_conflict, stale_command, related_not_found,
  relation_invalid, assertion_failed, store,
}
use sentinel_edge.Incidents.Requests.{
  Outcome, revised, related, payload_of, command_text, labels_after, control_reason,
  validate_relation, relation_kind, command_target,
}

-- `reason_text` prefixes `reason:` to a text.
module _ (fl : Floats) (ex : Externals fl.Float) (reason_text : String → String) where
  open fl use {Float, float_add, float_sub, hundredths}

  abbrev pub Run : Type 0
  Run = Result EngineError (Outcome Float) × Engine Float

  abbrev pub target_key : IncidentStatusCommand → Target
  target_key c = Target.status c.incident_id c.command

  abbrev pub scope_of : IncidentStatusCommand → String
  scope_of c = ex.scope_digest c.actor (target_key c) c.idempotency_key

  abbrev pub confidence_after : IncidentCommandKind → Float → Float
  confidence_after IncidentCommandKind.corroborate x =
      float_min fl (hundredths 100) (float_add x (hundredths 5))
  confidence_after IncidentCommandKind.contradict x =
      float_max fl (hundredths 0) (float_sub x (hundredths 10))
  confidence_after _ x = x

  abbrev pub receipt_of :
      IncidentStatusCommand → (version : ℕ) → (result : String) → (note : String) → CommandReceipt
  receipt_of c version result note = record {
    command_id = c.command_id;
    principal_id = c.actor;
    operation = Operation.status c.command;
    target = target_key c;
    scoped_idempotency_key = scope_of c;
    payload_sha256 = ex.command_digest (payload_of c);
    status = CommandStatus.committed;
    accepted_at = c.submitted_at;
    committed_at = some c.submitted_at;
    result_version = some version;
    result_sha256 = some result;
    reason_codes = "expected_version_verified" ∷ note ∷ [];
  }

  -- A receipt is written after the change has been committed; its failure does not undo the change.
  unfoldable pub finish : CommandReceipt → Outcome Float → Engine Float → Run
  finish r outcome e =
      let (done, s) = record_command_receipt ex.authority_digest r e.journal in
      elim done [ ok stored ↦ (ok outcome, record e { journal = s }) | err x ↦ (err (store x), e) ]

  -- The answer to a command that was seen before.
  unfoldable pub replay : IncidentStatusCommand → CommandReceipt → Engine Float → Run
  replay c old e =
      let found =
        if is_relating c.command
        then first
            (λ (row : String × IncidentRelation Float). elim old.result_sha256 [
              | none ↦ false
              | some text ↦ str_eq (ex.uuid_text row.1.relation_id) text
            ])
            e.journal.incident_relations
        else none in
      let refreshed = incident_by_id e c.incident_id in
      if not (str_eq old.payload_sha256 (ex.command_digest (payload_of c)))
      then (err key_conflict, e)
      else elim found [
        | some row ↦ (ok (related row.1), e)
        | none ↦ elim refreshed [ some r ↦ (ok (revised r), e) | none ↦ (err assertion_failed, e) ]
      ]

  abbrev pub relation_of :
      IncidentStatusCommand
      → IncidentRelationKind
      → IncidentRecord Float
      → IncidentRecord Float
      → IncidentRelation Float
  relation_of c kind current other = record {
    relation_id = ex.relation_uuid c.command_id;
    source_incident_id = current.incident_id;
    source_hazard = current.hazard;
    target_incident_id = other.incident_id;
    target_hazard = other.hazard;
    relation = kind;
    confidence = hundredths 100;
    expected_source_version = current.version;
    expected_target_version = other.version;
    created_at = c.submitted_at;
    actor = c.actor;
    reason = c.reason;
  }

  -- The related incident, if it is known under the stated hazard.
  abbrev pub related_incident :
      IncidentStatusCommand → Engine Float → Result EngineError (IncidentRecord Float)
  related_incident c e = elim c.related_incident_id [
    | none ↦ err assertion_failed
    | some id ↦ elim c.related_hazard [
      | none ↦ err assertion_failed
      | some h ↦ elim (incident_by_id e id) [
        | none ↦ err related_not_found
        | some r ↦ if same_hazard r.hazard h then ok r else err related_not_found
      ]
    ]
  ]

  -- Link and merge.
  unfoldable pub relate : IncidentStatusCommand → IncidentRecord Float → Engine Float → Run
  relate c current e = elim (related_incident c e) [
    | err x ↦ (err x, e)
    | ok other ↦ elim (relation_kind c.command current other) [
      | err x ↦ (err x, e)
      | ok kind ↦
          let wanted = relation_of c kind current other in
          let (stored, s) =
            record_incident_relation ex.authority_digest ex.relation_digest wanted e.journal in
          if not (validate_relation wanted) then (err relation_invalid, e) else elim stored [
            | err x ↦ (err (store x), e)
            | ok r ↦
                finish
                  (receipt_of c current.version (ex.uuid_text r.relation_id)
                    "incident_relation_committed")
                  (related r) (record e { journal = s })
          ]
    ]
  ]

  abbrev pub revision :
      IncidentStatusCommand → IncidentState → IncidentRecord Float → IncidentRecord Float
  revision c target current = record current {
    state = target;
    confidence = confidence_after c.command current.confidence;
    last_observed_at = c.submitted_at;
    version = current.version + 1;
    reason_codes = sorted_set (
        current.reason_codes
        ++ (command_text c.command ∷ reason_text c.reason ∷ control_reason c.command));
    labels = labels_after c.command current.labels;
  }

  -- The commands that change the incident itself.
  unfoldable pub revise : IncidentStatusCommand → IncidentRecord Float → Engine Float → Run
  revise c current e =
      elim (command_target c.command current
        (is_some (review_state e.journal current.incident_id).acknowledged_at)) [
          | err x ↦ (err x, e)
          | ok target ↦
              let r = revision c target current in
              let (outcome, e') =
                commit ex current.hazard r (notification_for ex e r current.state c.submitted_at)
                  e in
              if not (allowed current.state target)
              then (err illegal_transition, e)
              else elim outcome [
                | err x ↦ (err x, e')
                | ok stored ↦
                    finish
                      (receipt_of c r.version (ex.record_digest r)
                        "component4_incident_command_committed")
                      (revised r) e'
              ]
        ]

  unfoldable pub apply_status_command : IncidentStatusCommand → Engine Float → Run
  apply_status_command c e = elim (incident_by_id e c.incident_id) [
    | none ↦ (err command_target_not_found, e)
    | some current ↦
        if not (same_hazard current.hazard c.hazard)
        then (err command_target_not_found, e)
        else elim (command_receipt e.journal (scope_of c)) [
          | some old ↦ replay c old e
          | none ↦
              if not (current.version == c.expected_version)
              then (err stale_command, e)
              else if is_relating c.command
              then relate c current e
              else revise c current e
        ]
  ]
