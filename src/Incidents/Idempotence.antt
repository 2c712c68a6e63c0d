-- ===== src/Incidents/Idempotence.antt =====
-- What `apply_status_command` of src/sentinel_edge/incidents/engine.py does as a whole.
use sentinel_edge.Prelude.{
  Bool-cases, Option-cases, Result-cases, nat_eq, Floats, String, ◌≡◌, inl, inr, true, false, some,
  arith, str_eq, eq_iff, ok,
}
use text.Mathlib.TextEquality.{eq_iff}
use sentinel_edge.Domain.Kinds.Equality.{is_relating, hazard_eq}
use sentinel_edge.Domain.Records.{
  IncidentRecord, IncidentRelation, IncidentStatusCommand, CommandReceipt,
}
use sentinel_edge.Storage.Journal.Reads.{command_receipt}
use sentinel_edge.Storage.Journal.Writes.{record_incident_relation}
use sentinel_edge.Storage.Journal.Receipts.{record_incident_relation-events}
use sentinel_edge.Incidents.{Engine, Externals, incident_by_id}
use sentinel_edge.Incidents.Requests.{Outcome, related, payload_of, relation_kind}
use sentinel_edge.Incidents.Commands.{
  replay, relate, related_incident, relation_of, apply_status_command, scope_of,
}
use sentinel_edge.Incidents.Concurrency.{Receipted, Revised, finish-ok, revise-ok}

module _ (fl : Floats) (ex : Externals fl.Float) (reason_text : String → String) where
  open fl use {Float}

  -- A carried-out link or merge.
  pub record Related (c : IncidentStatusCommand) (current : IncidentRecord Float)
      (e e' : Engine Float) (o : Outcome Float) : Type 0 where
    pub relation : IncidentRelation Float
    pub outcome : o ≡ related relation
    pub current_kept : e'.current ≡ e.current
    pub events_kept : e'.journal.incident_events ≡ e.journal.incident_events
    pub receipted : Receipted fl ex reason_text c e'

  relate-ok :
      (c : IncidentStatusCommand) (current : IncidentRecord Float) (e e' : Engine Float)
      (o : Outcome Float)
      → relate fl ex reason_text c current e ≡ (ok o, e')
      → Related c current e e' o
  unfolding relate
  relate-ok c current e e' o h = elim (Result-cases (related_incident fl ex reason_text c e)) [
    | inr (x, k) ↦ absurd ground arith
    | inl (other, k) ↦ elim (Result-cases (relation_kind c.command current other)) [
      | inr (x, l) ↦ absurd ground arith
      | inl (kind, l) ↦
          let wanted = relation_of fl ex reason_text c kind current other in
          let m =
            record_incident_relation ex.authority_digest ex.relation_digest wanted e.journal in
          elim (Result-cases m.0) [
            | inr (x, n) ↦ absurd ground arith
            | inl (r, n) ↦
                let (same, kept, events, receipted) =
                  finish-ok fl ex reason_text c current.version (ex.uuid_text r.relation_id)
                    "incident_relation_committed" (related r) o (record e { journal = m.1 }) e'
                    (ground arith) in
                record {
                  relation = r;
                  outcome = same;
                  current_kept = kept;
                  events_kept = ground (
                    arith,
                    events,
                    record_incident_relation-events ex.authority_digest ex.relation_digest wanted
                        e.journal,
                  );
                  receipted = receipted;
                }
          ]
    ]
  ]

  -- How a command that succeeds was answered: from its earlier receipt, by a change of the
  -- incident, or by a relation.
  pub data Applied (c : IncidentStatusCommand) (e e' : Engine Float) (o : Outcome Float)
      : Type 0 where
    replayed : Receipted fl ex reason_text c e → e' ≡ e → Applied c e e' o
    changed :
        (current : IncidentRecord Float)
        → incident_by_id e c.incident_id ≡ some current
        → current.version ≡ c.expected_version
        → is_relating c.command ≡ false
        → Revised fl ex reason_text c current e e' o
        → Applied c e e' o
    linked :
        (current : IncidentRecord Float)
        → incident_by_id e c.incident_id ≡ some current
        → current.version ≡ c.expected_version
        → is_relating c.command ≡ true
        → Related c current e e' o
        → Applied c e e' o

  replay-ok :
      (c : IncidentStatusCommand) (old : CommandReceipt) (e e' : Engine Float) (o : Outcome Float)
      → command_receipt e.journal (scope_of fl ex reason_text c) ≡ some old
      → replay fl ex reason_text c old e ≡ (ok o, e')
      → Receipted fl ex reason_text c e × (e' ≡ e)
  unfolding replay
  replay-ok c old e e' o k h =
      let same : str_eq old.payload_sha256 (ex.command_digest (payload_of c)) ≡ true =
        ground arith in
      (
        record {
          receipt = old;
          found = k;
          payload = (eq_iff old.payload_sha256 (ex.command_digest (payload_of c))).0 same;
        },
        ground arith,
      )

  pub apply_status_command-Applied :
      (c : IncidentStatusCommand) (e e' : Engine Float) (o : Outcome Float)
      → apply_status_command fl ex reason_text c e ≡ (ok o, e')
      → Applied c e e' o
  unfolding apply_status_command
  apply_status_command-Applied c e e' o h = elim (Option-cases (incident_by_id e c.incident_id)) [
    | inl k ↦ absurd ground arith
    | inr (current, k) ↦
        elim (Option-cases (command_receipt e.journal (scope_of fl ex reason_text c))) [
          | inr (old, l) ↦
              let (r, same) = replay-ok c old e e' o l (ground arith) in Applied.replayed r same
          | inl l ↦ elim (Bool-cases (is_relating c.command)) [
            | inl m ↦
                Applied.linked current k (ground arith) m
                  (relate-ok c current e e' o (ground arith))
            | inr m ↦
                Applied.changed current k (ground arith) m
                  (revise-ok fl ex reason_text c current e e' o (ground arith))
          ]
        ]
  ]
