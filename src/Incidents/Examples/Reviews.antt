-- ===== src/Incidents/Examples/Reviews.antt =====
-- An authorized review of the incident of the examples.
use sentinel_edge.Prelude.{is_blank, text_append, nat_eq, String, ◌≡◌, refl, none, some, ok}
use sentinel_edge.Domain.Kinds.{HazardKind, ReviewActionKind}
use sentinel_edge.Domain.Kinds.Equality.{hazard_eq}
use sentinel_edge.Domain.Records.{IncidentReviewState, CommandReceipt}
use sentinel_edge.Storage.Journal.{append_authority}
use sentinel_edge.Storage.Journal.Reads.{review_state, notification_count, command_receipt}
use sentinel_edge.Storage.Journal.Writes.{
  append_incident_with_notification, commit_incident, commit_notification, record_command_receipt,
  record_review, reviewed,
}
use sentinel_edge.Incidents.{commit, notification_for}
use sentinel_edge.Incidents.Analysis.{target_of, next_record, accept, apply_to, apply_analysis}
use sentinel_edge.Incidents.Examples.{plain, one}
use sentinel_edge.Incidents.Review.{review}
use sentinel_edge.Incidents.Authorized.{
  AuthorizedReviewCommand, ReviewPayload, Answer, stored_receipt, carried_out,
  apply_authorized_review, validate_review, review_receipt,
}
use sentinel_edge.Incidents.Authorized.Effects.{IsAuthorized, apply_authorized_review-IsAuthorized}
use sentinel_edge.Security.Principals.{same_principal}
use sentinel_edge.Security.Authorization
use sentinel_edge.Security.Authorization.{encoding_version, scoped_idempotency_key}
use sentinel_edge.Security.Examples.{principal, macs, authorizer}

abbrev review_digest : ReviewPayload → String
review_digest p = p.idempotency_key

abbrev state_digest : IncidentReviewState → String
state_digest s = "state"

abbrev acknowledgement : AuthorizedReviewCommand
acknowledgement = record {
  command_id = 90;
  incident_id = 40;
  hazard = HazardKind.wildfire;
  action = ReviewActionKind.acknowledge;
  snooze_until = none;
  note = none;
  idempotency_key = "key-9";
  authorization = record {
    decision_id = 4;
    principal = principal;
    operation = "incidents:acknowledge";
    target = "incident:uuid";
    payload_sha256 = "key-9";
    policy_version = "local-policy-v1";
    canonical_encoding_version = encoding_version;
    accepted_at = 300;
    expires_at = 900;
    authorization_tag = "secretincidents:acknowledgekey-9";
  };
  payload_sha256 = "key-9";
  submitted_at = 400;
}

abbrev run : Answer plain macs review_digest state_digest
run = apply_authorized_review plain macs review_digest state_digest authorizer acknowledgement one

abbrev acknowledged : IncidentReviewState
acknowledged = record {
  incident_id = 40;
  acknowledged_at = some 400;
  acknowledged_by = some "ana";
  snoozed_until = none;
  snoozed_by = none;
  review_count = 1;
}

abbrev receipt : CommandReceipt
receipt = review_receipt plain macs review_digest state_digest acknowledgement acknowledged

acknowledged-once : run ≡ (ok (acknowledged, receipt), run.1)
unfolding apply_analysis apply_to accept target_of next_record commit notification_for
    append_incident_with_notification commit_incident commit_notification append_authority
    review_state notification_count command_receipt record_command_receipt record_review reviewed
    review stored_receipt carried_out apply_authorized_review validate_review Authorization.verify
    same_principal scoped_idempotency_key text_append is_blank
acknowledged-once = refl

not_reviewed : (review_state one.journal 40).incident_id ≡ 40
unfolding apply_analysis apply_to accept target_of next_record commit notification_for
    append_incident_with_notification commit_incident commit_notification append_authority
    review_state notification_count
not_reviewed = refl

apply_authorized_review-IsAuthorized_example :
    IsAuthorized plain macs review_digest state_digest authorizer acknowledgement one run.1
      acknowledged receipt
apply_authorized_review-IsAuthorized_example =
    apply_authorized_review-IsAuthorized plain macs review_digest state_digest authorizer
      acknowledgement one run.1 acknowledged receipt not_reviewed acknowledged-once
