-- ===== src/Storage/Journal/History.antt =====
-- Every history of writes to `IncidentJournalStore` (src/sentinel_edge/storage/sqlite_store.py): the
-- writes as data, in any order, committed or refused.
use sentinel_edge.Prelude.{
  ◌==◌, Option-cases, or_default, length, first, Result, String, ◌≡◌, inl, inr, true, Option, none,
  some, List, [], ◌∷◌, arith,
}
use sentinel_edge.Domain.Kinds.{Uuid, Instant, AuthorityMutationKind}
use sentinel_edge.Domain.Records.{
  IncidentRecord, NotificationIntent, ReviewAction, CommandReceipt, IncidentRelation,
}
use sentinel_edge.Storage.Journal.{
  AuthorityPayload, JournalStore, empty_store, record_authority_mutation,
}
use sentinel_edge.Storage.Journal.Writes.{
  commit_incident, commit_notification, append_incident_with_notification, record_review,
  record_command_receipt, record_incident_relation,
}
use sentinel_edge.Storage.Journal.Delivery.{attempted, record_delivery}
use sentinel_edge.Storage.Journal.Chain.{IsChained, authority_conformance}
use sentinel_edge.Storage.Journal.Chain.Append.{append_authority-IsChained}
use sentinel_edge.Storage.Journal.Chain.Valid.{authority_conformance-valid}

pub data Write (Float : Type 0) : Type 0 where
  incident : IncidentRecord Float → Option NotificationIntent → Write Float
  review : ReviewAction → Write Float
  receipt : CommandReceipt → Write Float
  relation : IncidentRelation Float → Write Float
  delivery : Uuid → Result String String → Instant → Write Float
  mutation : AuthorityMutationKind → Uuid → Instant → String → Write Float

module _ {Float : Type 0} (digest json : AuthorityPayload Float → String)
    (relation_digest : IncidentRelation Float → String) where
  -- The store after a write, which is the store before it where the write is refused.
  unfoldable pub write : Write Float → JournalStore Float → JournalStore Float
  write (Write.incident r n) s = (append_incident_with_notification digest r n s).1
  write (Write.review a) s = (record_review digest a s).1
  write (Write.receipt r) s = (record_command_receipt digest r s).1
  write (Write.relation r) s = (record_incident_relation digest relation_digest r s).1
  write (Write.delivery id outcome at) s = (record_delivery digest id outcome at s).1
  write (Write.mutation kind id at text) s = (record_authority_mutation digest kind id at text s).1

  unfoldable pub write_all : List (Write Float) → JournalStore Float → JournalStore Float
  unfolding write
  write_all [] s = s
  write_all (w ∷ ws) s = write_all ws (write w s)

  commit_incident-IsChained :
      (r : IncidentRecord Float) (s : JournalStore Float)
      → IsChained digest json s
      → IsChained digest json (commit_incident digest r s)
  unfolding commit_incident
  commit_incident-IsChained r s h = append_authority-IsChained digest json _ _ _ _ s h

  commit_notification-IsChained :
      (n : NotificationIntent) (s : JournalStore Float)
      → IsChained digest json s
      → IsChained digest json (commit_notification digest n s)
  unfolding commit_notification
  commit_notification-IsChained n s h = append_authority-IsChained digest json _ _ _ _ s h

  pub write-IsChained :
      (w : Write Float) (s : JournalStore Float)
      → IsChained digest json s
      → IsChained digest json (write w s)
  unfolding write append_incident_with_notification record_review record_command_receipt
      record_incident_relation record_delivery record_authority_mutation
  write-IsChained (Write.incident r none) s h = ground (arith, commit_incident-IsChained r s h)
  write-IsChained (Write.incident r (some n)) s h = ground (
    arith,
    commit_incident-IsChained r s h,
    commit_notification-IsChained n (commit_incident digest r s) (commit_incident-IsChained r s h),
  )
  write-IsChained (Write.review a) s h = ground (
    arith,
    append_authority-IsChained digest json AuthorityMutationKind.review a.review_id a.created_at
        (AuthorityPayload.review a) s h,
  )
  write-IsChained (Write.receipt r) s h = ground (
    arith,
    append_authority-IsChained digest json AuthorityMutationKind.command r.command_id
        (or_default r.committed_at r.accepted_at) (AuthorityPayload.receipt r) s h,
  )
  write-IsChained (Write.relation r) s h = ground (
    arith,
    append_authority-IsChained digest json AuthorityMutationKind.incident_relation r.relation_id
        r.created_at (AuthorityPayload.relation r) s h,
  )
  write-IsChained (Write.delivery id outcome at) s h =
      elim (Option-cases (first (λ n. n.notification_id == id) s.notification_intents)) [
        | inl missing ↦ ground arith
        | inr (n, found) ↦ ground (
          arith,
          append_authority-IsChained digest json AuthorityMutationKind.notification_delivery
              (attempted at outcome n).notification_id at
              (AuthorityPayload.notification (attempted at outcome n)) s h,
        )
      ]
  write-IsChained (Write.mutation kind id at text) s h =
      append_authority-IsChained digest json kind id at (AuthorityPayload.mutation text) s h

  write_all-IsChained :
      (ws : List (Write Float)) (s : JournalStore Float)
      → IsChained digest json s
      → IsChained digest json (write_all ws s)
  unfolding write_all
  write_all-IsChained [] s h = h
  write_all-IsChained (w ∷ ws) s h = write_all-IsChained ws (write w s) (write-IsChained w s h)

  -- After any sequence of writes to an empty store, committed or refused, the authority journal
  -- conforms: no failure, and the watermark is the number of events.
  pub write_all-conforms :
      (ws : List (Write Float))
      → let s = write_all ws empty_store in
        authority_conformance digest json s ≡ record {
          valid = true;
          epoch_id = "authority-epoch-1";
          event_count = length s.authority_events;
          highest_contiguous_position = length s.authority_events;
          failures = [];
        }
  write_all-conforms ws =
      authority_conformance-valid digest json (write_all ws empty_store)
        (write_all-IsChained ws empty_store tt)
