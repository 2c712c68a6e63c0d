-- ===== src/Incidents/Authorized.antt =====
-- `apply_authorized_review` of src/sentinel_edge/incidents/engine.py.
pub mod Effects
use sentinel_edge.Prelude.{
  ltb, if◌then◌else◌, is_some, Result, is_blank, text_append, nat_eq, String, Bool, true, false,
  not, ◌&&◌, Option, none, some, [], ◌∷◌, str_eq, ok, err,
}
use sentinel_edge.Domain.Kinds.{Uuid, Instant, HazardKind, ReviewActionKind, CommandStatus}
use sentinel_edge.Domain.Records.{
  IncidentReviewState, ReviewAction, CommandReceipt, Operation, Target,
}
use sentinel_edge.Security.Authorization
use sentinel_edge.Security.Authorization.{
  AuthorizationDecision, AuthorizationError, Macs, CommandAuthorizer, scoped_idempotency_key,
}
use sentinel_edge.Storage.Journal.Reads.{command_receipt, review_state}
use sentinel_edge.Storage.Journal.Writes.{record_command_receipt}
use sentinel_edge.Incidents.{Engine, EngineError, Externals, store}
use sentinel_edge.Incidents.Review.{review}

pub record AuthorizedReviewCommand : Type 0 where
  pub command_id : Uuid
  pub incident_id : Uuid
  pub hazard : HazardKind
  pub action : ReviewActionKind
  pub snooze_until : Option Instant
  pub note : Option String
  pub idempotency_key : String
  pub authorization : AuthorizationDecision
  pub payload_sha256 : String
  pub submitted_at : Instant

pub data ReviewError : Type 0 where
  refused : AuthorizationError → ReviewError
  reused_key invalid_review : ReviewError
  engine : EngineError → ReviewError

-- The dictionary of `_authorized_review_payload`.
pub record ReviewPayload : Type 0 where
  pub incident_id : Uuid
  pub hazard : HazardKind
  pub action : ReviewActionKind
  pub snooze_until : Option Instant
  pub note : Option String
  pub idempotency_key : String

abbrev pub review_payload : AuthorizedReviewCommand → ReviewPayload
review_payload c = record {
  incident_id = c.incident_id;
  hazard = c.hazard;
  action = c.action;
  snooze_until = c.snooze_until;
  note = c.note;
  idempotency_key = c.idempotency_key;
}

abbrev is_snooze : ReviewActionKind → Bool
is_snooze ReviewActionKind.snooze = true
is_snooze _ = false

-- `AuthorizedReviewCommand.validate_authorized_review`
unfoldable pub validate_authorized_review : AuthorizedReviewCommand → Bool
validate_authorized_review c =
    str_eq c.payload_sha256 c.authorization.payload_sha256
    && not (is_snooze c.action && not (is_some c.snooze_until))
    && not (is_blank c.idempotency_key)

abbrev has_text_in : Option String → Bool
has_text_in none = false
has_text_in (some s) = not (is_blank s)

abbrev is_later : Option Instant → Instant → Bool
is_later none at = false
is_later (some until) at = ltb at until

-- `ReviewAction.validate_review`
unfoldable pub validate_review : ReviewAction → Bool
validate_review a = not (is_blank a.actor) && elim a.action as (λ _. Bool) [
  | ReviewActionKind.snooze ↦ is_later a.snooze_until a.created_at
  | ReviewActionKind.comment ↦ not (is_some a.snooze_until) && has_text_in a.note
  | _ ↦ not (is_some a.snooze_until)
]

abbrev pub operation_text : ReviewActionKind → String
operation_text ReviewActionKind.acknowledge = "incidents:acknowledge"
operation_text ReviewActionKind.snooze = "incidents:snooze"
operation_text ReviewActionKind.unsnooze = "incidents:unsnooze"
operation_text ReviewActionKind.comment = "incidents:comment"

abbrev pub action_of : AuthorizedReviewCommand → ReviewAction
action_of c = record {
  review_id = c.command_id;
  incident_id = c.incident_id;
  hazard = c.hazard;
  action = c.action;
  actor = c.authorization.principal.principal_id;
  created_at = c.submitted_at;
  snooze_until = c.snooze_until;
  note = c.note;
}

module _ {Float : Type 0} (ex : Externals Float) (mc : Macs)
    (review_digest : ReviewPayload → String) (state_digest : IncidentReviewState → String) where
  abbrev pub target_text : AuthorizedReviewCommand → String
  target_text c = text_append "incident:" (ex.uuid_text c.incident_id)

  abbrev pub scoped_key : AuthorizedReviewCommand → String
  scoped_key c =
      scoped_idempotency_key mc c.authorization.principal (operation_text c.action) (target_text c)
        c.idempotency_key

  abbrev pub review_receipt : AuthorizedReviewCommand → IncidentReviewState → CommandReceipt
  review_receipt c state = record {
    command_id = c.command_id;
    principal_id = c.authorization.principal.principal_id;
    operation = Operation.reviewing c.action;
    target = Target.incident c.incident_id;
    scoped_idempotency_key = scoped_key c;
    payload_sha256 = c.payload_sha256;
    status = CommandStatus.committed;
    accepted_at = c.authorization.accepted_at;
    committed_at = some c.submitted_at;
    result_version = some state.review_count;
    result_sha256 = some (state_digest state);
    reason_codes = "gateway_authorization_verified" ∷ "component4_committed" ∷ [];
  }

  abbrev pub Answer : Type 0
  Answer = Result ReviewError (IncidentReviewState × CommandReceipt) × Engine Float

  -- The receipt of a review that has been recorded.
  unfoldable pub stored_receipt :
      AuthorizedReviewCommand → IncidentReviewState → Engine Float → Answer
  stored_receipt c state e =
      let (outcome, s) =
        record_command_receipt ex.authority_digest (review_receipt c state) e.journal in
      elim outcome [
        | err x ↦ (err (engine (store x)), e)
        | ok r ↦ (ok (state, r), record e { journal = s })
      ]

  unfoldable pub carried_out : AuthorizedReviewCommand → Engine Float → Answer
  carried_out c e =
      let (reviewed, e') = review ex (action_of c) e in
      if not (validate_review (action_of c))
      then (err invalid_review, e)
      else elim reviewed [ err x ↦ (err (engine x), e') | ok state ↦ stored_receipt c state e' ]

  unfoldable pub apply_authorized_review :
      CommandAuthorizer mc → AuthorizedReviewCommand → Engine Float → Answer
  apply_authorized_review z c e =
      elim (Authorization.verify mc review_digest z c.authorization (review_payload c)
        (operation_text c.action) (target_text c) (some c.authorization.principal) c.submitted_at) [
          | err x ↦ (err (refused x), e)
          | ok _ ↦ elim (command_receipt e.journal (scoped_key c)) [
            | some old ↦
                if str_eq old.payload_sha256 c.payload_sha256
                then (ok (review_state e.journal c.incident_id, old), e)
                else (err reused_key, e)
            | none ↦ carried_out c e
          ]
        ]
