-- ===== src/Storage/Journal/Writes.antt =====
-- The writes of `IncidentJournalStore` (src/sentinel_edge/storage/sqlite_store.py), each one
-- transaction: it commits as a whole, or raises and changes nothing.
use sentinel_edge.Prelude.{
  ◌==◌, if◌then◌else◌, or_default, first, any, last, nat_eq, insert, ℕ, ◌+◌, String, Bool, true,
  false, ◌&&◌, Option, none, some, [], ◌∷◌, ◌++◌, str_eq, ok, err,
}
use sentinel_edge.Prelude.Stateful.{Action}
use sentinel_edge.Domain.Kinds.{AuthorityMutationKind, ReviewActionKind}
use sentinel_edge.Domain.Kinds.Equality.{same_relation, same_state}
use sentinel_edge.Domain.Records.{
  IncidentRecord, NotificationIntent, NotificationKey, ReviewAction, IncidentReviewState,
  CommandReceipt, IncidentRelation,
}
use sentinel_edge.Storage.Journal.{
  AuthorityPayload, JournalStore, StoreError, incident, notification, review, receipt, relation,
  integrity_error, payload_conflict, relation_conflict, append_authority, next_position,
}
use sentinel_edge.Storage.Journal.Reads.{review_state, command_receipt}

abbrev pub same_key : NotificationKey → NotificationKey → Bool
same_key a b =
    a.incident_id == b.incident_id && a.version == b.version && same_state a.state b.state

module _ {Float : Type 0} where
  -- `UNIQUE(incident_id, version)`
  abbrev pub same_event : IncidentRecord Float → ℕ × IncidentRecord Float → Bool
  same_event r row = row.1.incident_id == r.incident_id && row.1.version == r.version

  abbrev pub position_after : JournalStore Float → ℕ
  position_after s = next_position (last s.authority_events)

module _ {Float : Type 0} (digest : AuthorityPayload Float → String) where
  -- The incident's authority event and its row.
  unfoldable pub commit_incident : IncidentRecord Float → JournalStore Float → JournalStore Float
  commit_incident r s =
      let t =
        append_authority digest AuthorityMutationKind.incident r.incident_id r.last_observed_at
          (incident r) s in
      record t { incident_events = s.incident_events ++ (position_after s, r) ∷ [] }

  -- The intent's authority event and `_insert_notification`.
  unfoldable pub commit_notification : NotificationIntent → JournalStore Float → JournalStore Float
  commit_notification n s =
      let t =
        append_authority digest AuthorityMutationKind.notification_intent n.notification_id
          n.created_at (notification n) s in
      record t { notification_intents = s.notification_intents ++ n ∷ [] }

  unfoldable pub append_incident_with_notification :
      IncidentRecord Float → Option NotificationIntent → Action (JournalStore Float) StoreError Bool
  append_incident_with_notification r intent s =
      if any (same_event r) s.incident_events then (err integrity_error, s) else elim intent [
        | none ↦ (ok false, commit_incident r s)
        | some n ↦
            if any (λ i. same_key i.idempotency_key n.idempotency_key) s.notification_intents
            then (ok false, commit_incident r s)
            else if any (λ i. i.notification_id == n.notification_id) s.notification_intents
            then (err integrity_error, s)
            else (ok true, commit_notification n (commit_incident r s))
      ]

  -- The review state that an action leaves.
  unfoldable pub reviewed :
      ReviewAction → ReviewActionKind → IncidentReviewState → IncidentReviewState
  reviewed a ReviewActionKind.acknowledge c = record c {
    acknowledged_at = some a.created_at;
    acknowledged_by = some a.actor;
    review_count = c.review_count + 1;
  }
  reviewed a ReviewActionKind.snooze c = record c {
    snoozed_until = a.snooze_until;
    snoozed_by = some a.actor;
    review_count = c.review_count + 1;
  }
  reviewed a ReviewActionKind.unsnooze c = record c {
    snoozed_until = none;
    snoozed_by = none;
    review_count = c.review_count + 1;
  }
  reviewed a ReviewActionKind.comment c = record c { review_count = c.review_count + 1 }

  unfoldable pub record_review :
      ReviewAction → Action (JournalStore Float) StoreError IncidentReviewState
  record_review a s =
      let updated = reviewed a a.action (review_state s a.incident_id) in
      let t =
        append_authority digest AuthorityMutationKind.review a.review_id a.created_at (review a)
          s in
      if any (λ b. b.review_id == a.review_id) s.review_actions then (err integrity_error, s) else (
        ok updated,
        record t {
          review_actions = s.review_actions ++ a ∷ [];
          incident_review_state = insert updated.incident_id updated s.incident_review_state;
        },
      )

  unfoldable pub record_command_receipt :
      CommandReceipt → Action (JournalStore Float) StoreError CommandReceipt
  record_command_receipt r s =
      let t =
        append_authority digest AuthorityMutationKind.command r.command_id
          (or_default r.committed_at r.accepted_at) (receipt r) s in
      elim (command_receipt s r.scoped_idempotency_key) [
        | some old ↦
            (if str_eq old.payload_sha256 r.payload_sha256 then ok old else err payload_conflict, s)
        | none ↦
            if any (λ b. b.command_id == r.command_id) s.command_receipts
            then (err integrity_error, s)
            else (ok r, record t { command_receipts = s.command_receipts ++ r ∷ [] })
      ]

  -- `relation_digest` is the SHA-256 of the relation's canonical JSON.
  unfoldable pub record_incident_relation :
      (relation_digest : IncidentRelation Float → String)
      → IncidentRelation Float
      → Action (JournalStore Float) StoreError (IncidentRelation Float)
  record_incident_relation relation_digest r s =
      let same = λ (row : String × IncidentRelation Float).
        row.1.source_incident_id == r.source_incident_id
        && row.1.target_incident_id == r.target_incident_id
        && same_relation row.1.relation r.relation in
      let t =
        append_authority digest AuthorityMutationKind.incident_relation r.relation_id r.created_at
          (relation r) s in
      elim (first same s.incident_relations) [
        | some row ↦
            (if str_eq row.0 (relation_digest r) then ok row.1 else err relation_conflict, s)
        | none ↦
            if any (λ (row : String × IncidentRelation Float). row.1.relation_id == r.relation_id)
              s.incident_relations
            then (err integrity_error, s)
            else (
              ok r,
              record t { incident_relations = s.incident_relations ++ (relation_digest r, r) ∷ [] },
            )
      ]
