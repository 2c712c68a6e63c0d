-- ===== src/Incidents/Examples/Commands.antt =====
-- Status commands on the incident of the examples, with the theorems on them.
use sentinel_edge.Prelude.{
  is_some, Result, nat_eq, lookup, ℕ, String, ◌≡◌, refl, ◌≢◌, ◌⊎◌, true, false, none, some, ok, err,
}
use sentinel_edge.Domain.Kinds.{HazardKind, IncidentState, IncidentCommandKind}
use sentinel_edge.Domain.Kinds.Equality.{hazard_eq, is_confirmed}
use sentinel_edge.Domain.Records.{IncidentRecord, IncidentStatusCommand}
use sentinel_edge.Storage.Journal.{append_authority, StoreError}
use sentinel_edge.Storage.Journal.Reads.{
  review_state, notification_count, command_receipt, all_incidents,
}
use sentinel_edge.Storage.Journal.Writes.{
  append_incident_with_notification, commit_incident, commit_notification, record_command_receipt,
}
use sentinel_edge.Incidents.{
  Engine, EngineError, commit, notification_for, incident_by_id, state_of, store, stale_command,
}
use sentinel_edge.Incidents.Analysis.{
  target_of, next_record, accept, apply_to, apply_analysis, is_blind,
}
use sentinel_edge.Incidents.Requests.{Outcome, revised, command_target}
use sentinel_edge.Incidents.Commands.{finish, revise, revision, apply_status_command}
use sentinel_edge.Incidents.Concurrency.{Receipted}
use sentinel_edge.Incidents.Guarantees.{
  Spared, apply_status_command-again, apply_status_command-error, apply_status_command-resolve,
}
use sentinel_edge.Incidents.Examples.{hundredths_only, plain, first_record, one}

abbrev resolve : IncidentStatusCommand
resolve = record {
  command_id = 70;
  incident_id = 40;
  hazard = HazardKind.wildfire;
  command = IncidentCommandKind.resolve;
  expected_version = 1;
  actor = "operator";
  reason = "checked";
  related_incident_id = none;
  related_hazard = none;
  idempotency_key = "key-1";
  submitted_at = 400;
}

abbrev reason_text : String → String
reason_text s = s

abbrev command : IncidentStatusCommand → Engine ℕ → Result EngineError (Outcome ℕ) × Engine ℕ
command c e = apply_status_command hundredths_only plain reason_text c e

abbrev resolving_record : IncidentRecord ℕ
resolving_record =
    revision hundredths_only plain reason_text resolve IncidentState.resolving first_record

abbrev after_resolve : Engine ℕ
after_resolve = (command resolve one).1

resolve-applied : command resolve one ≡ (ok (revised resolving_record), after_resolve)
unfolding apply_analysis apply_to accept target_of next_record commit notification_for
    append_incident_with_notification commit_incident commit_notification append_authority
    review_state notification_count apply_status_command revise finish command_target incident_by_id
    command_receipt record_command_receipt all_incidents
resolve-applied = refl

apply_status_command-again_example :
    Receipted hundredths_only plain reason_text resolve after_resolve
    × ((command resolve after_resolve).1 ≡ after_resolve)
apply_status_command-again_example =
    apply_status_command-again hundredths_only plain reason_text resolve resolve one after_resolve
      (revised resolving_record) resolve-applied refl

no_receipt_yet : command_receipt one.journal "key-1" ≡ none
unfolding apply_analysis apply_to accept target_of next_record commit notification_for
    append_incident_with_notification commit_incident commit_notification append_authority
    review_state notification_count command_receipt
no_receipt_yet = refl

apply_status_command-resolve_example :
    (current r : IncidentRecord ℕ) × (incident_by_id one 40 ≡ some current)
    × (revised resolving_record ≡ revised r)
    × (r.version ≡ 2)
    × (is_blind current.coverage ≡ false)
    × ((is_confirmed current.state ≡ false)
        ⊎ (is_some (review_state one.journal current.incident_id).acknowledged_at ≡ true))
    × ((r.state ≢ IncidentState.resolved) ⊎ (current.state ≡ IncidentState.resolving))
    × (lookup current.hazard after_resolve.current ≡ some r)
apply_status_command-resolve_example =
    apply_status_command-resolve hundredths_only plain reason_text resolve one after_resolve
      (revised resolving_record) resolve-applied refl no_receipt_yet

-- A command that expects another version than the incident has.
abbrev stale : IncidentStatusCommand
stale = record resolve { expected_version = 9 }

stale-refused : command stale one ≡ (err stale_command, one)
unfolding apply_analysis apply_to accept target_of next_record commit notification_for
    append_incident_with_notification commit_incident commit_notification append_authority
    review_state notification_count apply_status_command incident_by_id command_receipt
stale-refused = refl

apply_status_command-error_example :
    Spared hundredths_only plain reason_text stale one one stale_command
apply_status_command-error_example =
    apply_status_command-error hundredths_only plain reason_text stale one one stale_command
      stale-refused

-- Another command under the same identity: the incident is resolved, then the receipt is refused.
abbrev same_identity : IncidentStatusCommand
same_identity = record resolve { expected_version = 2; idempotency_key = "key-2" }

resolved_without_receipt :
    ((command same_identity after_resolve).0 ≡ err (store StoreError.integrity_error))
    × (state_of (lookup HazardKind.wildfire (command same_identity after_resolve).1.current)
        ≡ IncidentState.resolved)
unfolding apply_analysis apply_to accept target_of next_record commit notification_for
    append_incident_with_notification commit_incident commit_notification append_authority
    review_state notification_count apply_status_command revise finish command_target incident_by_id
    command_receipt record_command_receipt all_incidents
resolved_without_receipt = (refl, refl)
