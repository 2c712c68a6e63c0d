-- ===== src/Incidents/Guarantees.antt =====
-- What a caller of `apply_status_command` (src/sentinel_edge/incidents/engine.py) may rely on.
use sentinel_edge.Prelude.{
  ◌==◌, Bool-cases, Option-cases, is_some, Result-cases, nat_eq, lookup, lookup-insert_self, Floats,
  ◌+◌, String, ◌≡◌, ◌≢◌, ◌⊎◌, inl, inr, Bool, true, false, ◌&&◌, none, some, arith, ok, err,
}
use sentinel_edge.Domain.Kinds.{IncidentRelationKind, IncidentState, IncidentCommandKind}
use sentinel_edge.Domain.Kinds.Equality.{same_hazard, is_relating, is_confirmed, hazard_eq}
use sentinel_edge.Domain.Records.{
  IncidentRelation, IncidentRecord, IncidentStatusCommand, CommandReceipt,
}
use sentinel_edge.Storage.Journal.{StoreError, JournalStore}
use sentinel_edge.Storage.Journal.Reads.{review_state, command_receipt}
use sentinel_edge.Storage.Journal.Writes.{record_incident_relation, record_command_receipt}
use sentinel_edge.Incidents.{
  Engine, EngineError, Externals, allowed, incident_by_id, commit, notification_for, store,
}
use sentinel_edge.Incidents.Analysis.{is_blind}
use sentinel_edge.Incidents.Requests.{
  Outcome, revised, related, command_target, validate_relation, relation_kind,
}
use sentinel_edge.Incidents.Commands.{
  finish, replay, relate, revise, revision, related_incident, relation_of, receipt_of,
  apply_status_command, scope_of,
}
use sentinel_edge.Incidents.Concurrency.{Receipted, commit-err}
use sentinel_edge.Incidents.Idempotence.{Applied, apply_status_command-Applied}

module _ (fl : Floats) (ex : Externals fl.Float) (reason_text : String → String) where
  open fl use {Float}

  Applied-Receipted :
      (c : IncidentStatusCommand) (e e' : Engine Float) (o : Outcome Float)
      → Applied fl ex reason_text c e e' o
      → Receipted fl ex reason_text c e'
  Applied-Receipted c e e' o (Applied.replayed r same) = ground arith
  Applied-Receipted c e e' o (Applied.changed current i v k r) = r.receipted
  Applied-Receipted c e e' o (Applied.linked current i v k r) = r.receipted

  apply_status_command-seen :
      (c : IncidentStatusCommand) (e : Engine Float) (old : CommandReceipt)
      → command_receipt e.journal (scope_of fl ex reason_text c) ≡ some old
      → (apply_status_command fl ex reason_text c e).1 ≡ e
  unfolding apply_status_command replay
  apply_status_command-seen c e old h = ground arith

  -- A command that succeeds leaves a receipt under its scoped key with the digest of its payload;
  -- applied again, or any command under that key, the engine does not change.
  pub apply_status_command-again :
      (c d : IncidentStatusCommand) (e e' : Engine Float) (o : Outcome Float)
      → apply_status_command fl ex reason_text c e ≡ (ok o, e')
      → scope_of fl ex reason_text d ≡ scope_of fl ex reason_text c
      → Receipted fl ex reason_text c e' × ((apply_status_command fl ex reason_text d e').1 ≡ e')
  apply_status_command-again c d e e' o h k =
      let r =
        Applied-Receipted c e e' o (apply_status_command-Applied fl ex reason_text c e e' o h) in
      (r, apply_status_command-seen d e' r.receipt ground (arith, r.found))

  -- The store refuses the receipt, and the engine stays as it is.
  pub record IsUnreceipted (r : CommandReceipt) (d e' : Engine Float) (x : EngineError)
      : Type 0 where
    pub reason : StoreError
    pub refused : (record_command_receipt ex.authority_digest r d.journal).0 ≡ err reason
    pub raised : x ≡ store reason
    pub kept : e' ≡ d

  -- The engine after a failed command: as it was, or with the command's change or relation committed
  -- in full, when the store then refused the command's receipt.
  pub data Spared (c : IncidentStatusCommand) (e e' : Engine Float) (x : EngineError) : Type 0 where
    unchanged : e' ≡ e → Spared c e e' x
    changed :
        (current : IncidentRecord Float) (target : IncidentState) (b : IncidentRecord Float)
        (d : Engine Float)
        → commit ex current.hazard
            (revision fl ex reason_text c target current)
            (notification_for ex e
              (revision fl ex reason_text c target current)
              current.state
              c.submitted_at)
            e
          ≡ (ok b, d)
        → IsUnreceipted
            (receipt_of fl ex reason_text c
              (revision fl ex reason_text c target current).version
              (ex.record_digest (revision fl ex reason_text c target current))
              "component4_incident_command_committed")
            d
            e'
            x
        → Spared c e e' x
    linked :
        (current other : IncidentRecord Float) (kind : IncidentRelationKind)
        (r : IncidentRelation Float) (s : JournalStore Float)
        → record_incident_relation ex.authority_digest ex.relation_digest
            (relation_of fl ex reason_text c kind current other)
            e.journal
          ≡ (ok r, s)
        → IsUnreceipted
            (receipt_of fl ex reason_text c current.version
              (ex.uuid_text r.relation_id)
              "incident_relation_committed")
            (record e { journal = s })
            e'
            x
        → Spared c e e' x

  finish-IsUnreceipted :
      (r : CommandReceipt) (o : Outcome Float) (d e' : Engine Float) (x : EngineError)
      → finish fl ex reason_text r o d ≡ (err x, e')
      → IsUnreceipted r d e' x
  unfolding finish
  finish-IsUnreceipted r o d e' x h =
      elim (Result-cases (record_command_receipt ex.authority_digest r d.journal).0) [
        | inl (b, m) ↦ absurd ground arith
        | inr (y, m) ↦ record {
          reason = y;
          refused = m;
          raised = ground arith;
          kept = ground arith;
        }
      ]

  relate-Spared :
      (c : IncidentStatusCommand) (current : IncidentRecord Float) (e e' : Engine Float)
      (x : EngineError)
      → relate fl ex reason_text c current e ≡ (err x, e')
      → Spared c e e' x
  unfolding relate
  relate-Spared c current e e' x h = elim (Result-cases (related_incident fl ex reason_text c e)) [
    | inr (y, k) ↦ Spared.unchanged (ground arith)
    | inl (other, k) ↦ elim (Result-cases (relation_kind c.command current other)) [
      | inr (y, l) ↦ Spared.unchanged (ground arith)
      | inl (kind, l) ↦
          let wanted = relation_of fl ex reason_text c kind current other in
          let m =
            record_incident_relation ex.authority_digest ex.relation_digest wanted e.journal in
          elim (Bool-cases (validate_relation wanted)) [
            | inr v ↦ Spared.unchanged (ground arith)
            | inl v ↦ elim (Result-cases m.0) [
              | inr (y, n) ↦ Spared.unchanged (ground arith)
              | inl (r, n) ↦ Spared.linked current other kind r m.1 (ground arith) (
                  finish-IsUnreceipted
                    (receipt_of fl ex reason_text c current.version (ex.uuid_text r.relation_id)
                      "incident_relation_committed")
                    (related r) (record e { journal = m.1 }) e' x (ground arith))
            ]
          ]
    ]
  ]

  revise-Spared :
      (c : IncidentStatusCommand) (current : IncidentRecord Float) (e e' : Engine Float)
      (x : EngineError)
      → revise fl ex reason_text c current e ≡ (err x, e')
      → Spared c e e' x
  unfolding revise
  revise-Spared c current e e' x h =
      elim (Result-cases (
        command_target c.command current
          (is_some (review_state e.journal current.incident_id).acknowledged_at))) [
            | inr (y, k) ↦ Spared.unchanged (ground arith)
            | inl (target, k) ↦
                let r = revision fl ex reason_text c target current in
                let n = notification_for ex e r current.state c.submitted_at in
                let m = commit ex current.hazard r n e in
                elim (Bool-cases (allowed current.state target)) [
                  | inr v ↦ Spared.unchanged (ground arith)
                  | inl v ↦ elim (Result-cases m.0) [
                    | inr (y, l) ↦
                        Spared.unchanged
                          (ground (arith, commit-err fl ex reason_text current.hazard r y n e m.1))
                    | inl (b, l) ↦ Spared.changed current target b m.1 (ground arith) (
                        finish-IsUnreceipted
                          (receipt_of fl ex reason_text c r.version (ex.record_digest r)
                            "component4_incident_command_committed")
                          (revised r) m.1 e' x (ground arith))
                  ]
                ]
          ]

  command_target-resolve :
      (current : IncidentRecord Float) (acknowledged : Bool) (target : IncidentState)
      → command_target IncidentCommandKind.resolve current acknowledged ≡ ok target
      → (is_blind current.coverage ≡ false)
        × ((is_confirmed current.state ≡ false) ⊎ (acknowledged ≡ true))
        × ((target ≢ IncidentState.resolved) ⊎ (current.state ≡ IncidentState.resolving))
  unfolding command_target
  command_target-resolve current acknowledged target h = ground arith

  -- A command that fails leaves the engine as it was, unless its change or its relation was committed
  -- in full and the store then refused its receipt.
  pub apply_status_command-error :
      (c : IncidentStatusCommand) (e e' : Engine Float) (x : EngineError)
      → apply_status_command fl ex reason_text c e ≡ (err x, e')
      → Spared c e e' x
  unfolding apply_status_command
  apply_status_command-error c e e' x h = elim (Option-cases (incident_by_id e c.incident_id)) [
    | inl k ↦ Spared.unchanged (ground arith)
    | inr (current, k) ↦
        elim (Option-cases (command_receipt e.journal (scope_of fl ex reason_text c))) [
          | inr (old, l) ↦ Spared.unchanged (ground (arith, apply_status_command-seen c e old l))
          | inl l ↦
              elim (Bool-cases
                (same_hazard current.hazard c.hazard && current.version == c.expected_version)) [
                  | inr n ↦ Spared.unchanged (ground arith)
                  | inl n ↦ elim (Bool-cases (is_relating c.command)) [
                    | inl m ↦ relate-Spared c current e e' x (ground arith)
                    | inr m ↦ revise-Spared c current e e' x (ground arith)
                  ]
                ]
        ]
  ]

  -- A resolve command that succeeds without an earlier receipt raises the version that it expected
  -- by one; the incident was not blind, was acknowledged if it was confirmed, and becomes resolved
  -- only from resolving.
  pub apply_status_command-resolve :
      (c : IncidentStatusCommand) (e e' : Engine Float) (o : Outcome Float)
      → apply_status_command fl ex reason_text c e ≡ (ok o, e')
      → c.command ≡ IncidentCommandKind.resolve
      → command_receipt e.journal (scope_of fl ex reason_text c) ≡ none
      → (current r : IncidentRecord Float) × (incident_by_id e c.incident_id ≡ some current)
        × (o ≡ revised r)
        × (r.version ≡ c.expected_version + 1)
        × (is_blind current.coverage ≡ false)
        × ((is_confirmed current.state ≡ false)
            ⊎ (is_some (review_state e.journal current.incident_id).acknowledged_at ≡ true))
        × ((r.state ≢ IncidentState.resolved) ⊎ (current.state ≡ IncidentState.resolving))
        × (lookup current.hazard e'.current ≡ some r)
  apply_status_command-resolve c e e' o h k n =
      elim (apply_status_command-Applied fl ex reason_text c e e' o h) [
        | Applied.replayed r same ↦ absurd ground (arith, r.found)
        | Applied.linked current i v l r ↦ absurd ground arith
        | Applied.changed current i v l r ↦
            let acknowledged =
              is_some (review_state e.journal current.incident_id).acknowledged_at in
            let (seeing, acked, closing) =
              command_target-resolve current acknowledged r.target cc in
            (
              current,
              revision fl ex reason_text c r.target current,
              i,
              r.outcome,
              ground arith,
              seeing,
              acked,
              closing,
              ground (
                arith,
                r.stored,
                lookup-insert_self current.hazard (revision fl ex reason_text c r.target current)
                    e.current,
              ),
            )
      ]
