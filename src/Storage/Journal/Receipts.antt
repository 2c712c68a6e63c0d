-- ===== src/Storage/Journal/Receipts.antt =====
-- Receipts of commands in `IncidentJournalStore` (src/sentinel_edge/storage/sqlite_store.py).
use text.Mathlib.TextEquality.{eq_iff}
use sentinel_edge.Prelude.{
  first-append, String, ◌≡◌, ◌⊎◌, Option, some, [], ◌∷◌, ◌++◌, arith, str_eq, eq_iff, ok, err,
}
use sentinel_edge.Domain.Records.{
  IncidentRecord, NotificationIntent, CommandReceipt, IncidentRelation,
}
use sentinel_edge.Storage.Journal.{AuthorityPayload, JournalStore, append_authority}
use sentinel_edge.Storage.Journal.Reads.{command_receipt}
use sentinel_edge.Storage.Journal.Writes.{
  record_incident_relation, record_command_receipt, append_incident_with_notification,
  commit_incident, commit_notification,
}

module _ {Float : Type 0} (digest : AuthorityPayload Float → String) where
  -- A receipt that the store takes is found again under its scoped key. The write adds at most the
  -- receipt's own row to the receipts, and leaves the incidents, the notifications, the relations,
  -- the reviews and the review states as they were.
  pub record_command_receipt-found :
      (r x : CommandReceipt) (s t : JournalStore Float)
      → record_command_receipt digest r s ≡ (ok x, t)
      → (command_receipt t r.scoped_idempotency_key ≡ some x)
        × (x.payload_sha256 ≡ r.payload_sha256)
        × (t.incident_events ≡ s.incident_events)
        × (t.notification_intents ≡ s.notification_intents)
        × (t.incident_relations ≡ s.incident_relations)
        × (t.review_actions ≡ s.review_actions)
        × (t.incident_review_state ≡ s.incident_review_state)
        × (t.command_receipts ≡ s.command_receipts
            ⊎ (t.command_receipts ≡ s.command_receipts ++ r ∷ []))
  unfolding record_command_receipt command_receipt append_authority
  record_command_receipt-found r x s t h = ground (
    arith,
    first-append (λ (b : CommandReceipt). str_eq b.scoped_idempotency_key r.scoped_idempotency_key)
        s.command_receipts r,
    eq_iff r.scoped_idempotency_key r.scoped_idempotency_key,
    eq_iff x.payload_sha256 r.payload_sha256,
  )

  pub record_command_receipt-error :
      (r : CommandReceipt) (s t : JournalStore Float) (x : _)
      → record_command_receipt digest r s ≡ (err x, t)
      → t ≡ s
  unfolding record_command_receipt
  record_command_receipt-error r s t x h = ground arith

  pub append_incident-receipts :
      (r : IncidentRecord Float) (n : Option NotificationIntent) (s : JournalStore Float)
      → (append_incident_with_notification digest r n s).1.command_receipts ≡ s.command_receipts
  unfolding append_incident_with_notification commit_incident commit_notification append_authority
  append_incident-receipts r n s = ground arith

  pub record_incident_relation-events :
      (relation_digest : IncidentRelation Float → String) (r : IncidentRelation Float)
      (s : JournalStore Float)
      → (record_incident_relation digest relation_digest r s).1.incident_events ≡ s.incident_events
  unfolding record_incident_relation append_authority
  record_incident_relation-events relation_digest r s = ground arith

  pub record_incident_relation-error :
      (relation_digest : IncidentRelation Float → String) (r : IncidentRelation Float)
      (s t : JournalStore Float) (x : _)
      → record_incident_relation digest relation_digest r s ≡ (err x, t)
      → t ≡ s
  unfolding record_incident_relation
  record_incident_relation-error relation_digest r s t x h = ground arith
