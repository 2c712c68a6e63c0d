-- ===== src/Incidents/Concurrency.antt =====
-- Status commands of src/sentinel_edge/incidents/engine.py: versions, receipts and errors.
use sentinel_edge.Prelude.{
  is_some, Result-cases, insert, Floats, ℕ, String, ◌≡◌, inl, inr, true, Option, some, arith, ok,
  err,
}
use sentinel_edge.Domain.Kinds.{IncidentState}
use sentinel_edge.Domain.Kinds.Equality.{hazard_eq}
use sentinel_edge.Domain.Records.{
  IncidentRecord, IncidentStatusCommand, CommandReceipt, NotificationIntent,
}
use sentinel_edge.Storage.Journal.Reads.{review_state, command_receipt}
use sentinel_edge.Storage.Journal.Writes.{record_command_receipt, append_incident_with_notification}
use sentinel_edge.Storage.Journal.Receipts.{record_command_receipt-found}
use sentinel_edge.Incidents.{Engine, EngineError, Externals, allowed, notification_for, commit}
use sentinel_edge.Incidents.Requests.{Outcome, revised, command_target, payload_of}
use sentinel_edge.Incidents.Commands.{finish, revise, revision, scope_of, receipt_of}

module _ (fl : Floats) (ex : Externals fl.Float) (reason_text : String → String) where
  open fl use {Float}

  -- What a command leaves when it has been carried out and its receipt is stored.
  pub record Receipted (c : IncidentStatusCommand) (e : Engine Float) : Type 0 where
    pub receipt : CommandReceipt
    pub found : command_receipt e.journal (scope_of fl ex reason_text c) ≡ some receipt
    pub payload : receipt.payload_sha256 ≡ ex.command_digest (payload_of c)

  pub finish-ok :
      (c : IncidentStatusCommand) (v : ℕ) (digest note : String) (o x : Outcome Float)
      (e e' : Engine Float)
      → finish fl ex reason_text (receipt_of fl ex reason_text c v digest note) o e ≡ (ok x, e')
      → (x ≡ o)
        × (e'.current ≡ e.current)
        × (e'.journal.incident_events ≡ e.journal.incident_events)
        × Receipted c e'
  unfolding finish
  finish-ok c v digest note o x e e' h =
      let r = receipt_of fl ex reason_text c v digest note in
      let m = record_command_receipt ex.authority_digest r e.journal in
      elim (Result-cases m.0) [
        | inl (stored, k) ↦
            let (found, same, events, intents, relations, actions, states, rows) =
              record_command_receipt-found ex.authority_digest r stored e.journal m.1
                (ground (arith, k)) in
            (
              ground arith,
              ground arith,
              ground arith,
              record { receipt = stored; found = ground arith; payload = same },
            )
        | inr (x, k) ↦ absurd ground arith
      ]

  -- A carried-out command that changes the incident.
  pub record Revised (c : IncidentStatusCommand) (current : IncidentRecord Float)
      (e e' : Engine Float) (o : Outcome Float) : Type 0 where
    pub target : IncidentState
    pub rule :
        command_target c.command current
          (is_some (review_state e.journal current.incident_id).acknowledged_at)
        ≡ ok target
    pub permitted : allowed current.state target ≡ true
    pub outcome : o ≡ revised (revision fl ex reason_text c target current)
    pub stored :
        e'.current ≡ insert current.hazard (revision fl ex reason_text c target current) e.current
    pub receipted : Receipted c e'

  commit-ok :
      (h : _) (r x : IncidentRecord Float) (n : Option NotificationIntent) (e e' : Engine Float)
      → commit ex h r n e ≡ (ok x, e')
      → (x ≡ r) × (e'.current ≡ insert h r e.current)
  unfolding commit
  commit-ok h r x n e e' k =
      elim (Result-cases (append_incident_with_notification ex.authority_digest r n e.journal).0) [
        | inl (b, m) ↦ ground arith
        | inr (b, m) ↦ absurd ground arith
      ]

  pub commit-err :
      (h : _) (r : IncidentRecord Float) (x : EngineError) (n : Option NotificationIntent)
      (e e' : Engine Float)
      → commit ex h r n e ≡ (err x, e')
      → e' ≡ e
  unfolding commit
  commit-err h r x n e e' k =
      elim (Result-cases (append_incident_with_notification ex.authority_digest r n e.journal).0) [
        | inl (b, m) ↦ absurd ground arith
        | inr (b, m) ↦ ground arith
      ]

  pub revise-ok :
      (c : IncidentStatusCommand) (current : IncidentRecord Float) (e e' : Engine Float)
      (o : Outcome Float)
      → revise fl ex reason_text c current e ≡ (ok o, e')
      → Revised c current e e' o
  unfolding revise
  revise-ok c current e e' o h =
      elim (Result-cases (
        command_target c.command current
          (is_some (review_state e.journal current.incident_id).acknowledged_at))) [
            | inr (x, k) ↦ absurd ground arith
            | inl (target, k) ↦
                let r = revision fl ex reason_text c target current in
                let m =
                  commit ex current.hazard r (notification_for ex e r current.state c.submitted_at)
                    e in
                elim (Result-cases m.0) [
                  | inr (x, l) ↦ absurd ground arith
                  | inl (x, l) ↦
                      let (same, kept, events, receipted) =
                        finish-ok c r.version (ex.record_digest r)
                          "component4_incident_command_committed" (revised r) o m.1 e'
                          (ground arith) in
                      record {
                        target = target;
                        rule = k;
                        permitted = ground arith;
                        outcome = same;
                        stored = ground (
                          arith,
                          kept,
                          commit-ok current.hazard r x
                              (notification_for ex e r current.state c.submitted_at) e m.1,
                        );
                        receipted = receipted;
                      }
                ]
          ]
