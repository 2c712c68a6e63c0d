-- ===== src/Storage/Journal.antt =====
-- `IncidentJournalStore` of src/sentinel_edge/storage/sqlite_store.py: its tables as lists in the
-- order of their keys, and the authority journal that every write extends. A transaction that
-- raises leaves the tables as they were. `digest` is the SHA-256 of a payload's canonical JSON.
pub mod Writes
pub mod Reads
pub mod Delivery
pub mod Chain
pub mod History
pub mod Receipts
pub mod Examples
use sentinel_edge.Prelude.{
  ◌==◌, if◌then◌else◌, last, Dict, ℕ, ◌+◌, String, Option, none, some, List, [], ◌∷◌, ◌++◌,
}
use sentinel_edge.Domain.Kinds.{Uuid, Instant, AuthorityMutationKind}
use sentinel_edge.Domain.Records.{
  IncidentRecord, NotificationIntent, ReviewAction, IncidentReviewState, CommandReceipt,
  IncidentRelation,
}

-- What a write puts under `payload_json`; `mutation` is the JSON text of the other components.
pub data AuthorityPayload (Float : Type 0) : Type 0 where
  incident : IncidentRecord Float → AuthorityPayload Float
  notification : NotificationIntent → AuthorityPayload Float
  review : ReviewAction → AuthorityPayload Float
  receipt : CommandReceipt → AuthorityPayload Float
  relation : IncidentRelation Float → AuthorityPayload Float
  mutation : String → AuthorityPayload Float

-- A row of `authority_events`.
pub record AuthorityEvent (Float : Type 0) : Type 0 where
  pub position : ℕ
  pub epoch_id : String
  pub epoch_ordinal : ℕ
  pub predecessor_position : Option ℕ
  pub kind : AuthorityMutationKind
  pub entity_id : Uuid
  pub accepted_at : Instant
  pub payload_sha256 : String
  pub payload : AuthorityPayload Float

-- A row of `authority_event_subtypes`.
pub record AuthoritySubtype (Float : Type 0) : Type 0 where
  pub authority_position : ℕ
  pub kind : AuthorityMutationKind
  pub subtype_id : Uuid
  pub payload_sha256 : String
  pub payload : AuthorityPayload Float

-- The tables. An incident's row has its authority position, a relation's row its digest.
pub record JournalStore (Float : Type 0) : Type 0 where
  pub authority_events : List (AuthorityEvent Float)
  pub authority_event_subtypes : List (AuthoritySubtype Float)
  pub incident_events : List (ℕ × IncidentRecord Float)
  pub notification_intents : List NotificationIntent
  pub review_actions : List ReviewAction
  pub incident_review_state : Dict Uuid IncidentReviewState
  pub command_receipts : List CommandReceipt
  pub incident_relations : List (String × IncidentRelation Float)

pub data StoreError : Type 0 where
  integrity_error missing_notification payload_conflict relation_conflict : StoreError

abbrev pub empty_store : {Float : Type 0} → JournalStore Float
empty_store = record {
  authority_events = [];
  authority_event_subtypes = [];
  incident_events = [];
  notification_intents = [];
  review_actions = [];
  incident_review_state = [];
  command_receipts = [];
  incident_relations = [];
}

module _ {Float : Type 0} where
  -- The row that the next write of the journal gets: its position continues the last row's, its
  -- ordinal the last row's ordinal, or its position where that is 0.
  abbrev next_position : Option (AuthorityEvent Float) → ℕ
  next_position none = 1
  next_position (some e) = e.position + 1

  abbrev next_ordinal : Option (AuthorityEvent Float) → ℕ
  next_ordinal none = 1
  next_ordinal (some e) = (if e.epoch_ordinal == 0 then e.position else e.epoch_ordinal) + 1

  abbrev previous_position : Option (AuthorityEvent Float) → Option ℕ
  previous_position none = none
  previous_position (some e) = some e.position

module _ {Float : Type 0} (digest : AuthorityPayload Float → String) where
  -- `_append_authority`, the store after it; the position is that of the last row.
  unfoldable pub append_authority :
      AuthorityMutationKind
      → Uuid
      → Instant
      → AuthorityPayload Float
      → JournalStore Float
      → JournalStore Float
  append_authority kind entity_id accepted_at payload s =
      let previous = last s.authority_events in
      let e : AuthorityEvent Float = record {
        position = next_position previous;
        epoch_id = "authority-epoch-1";
        epoch_ordinal = next_ordinal previous;
        predecessor_position = previous_position previous;
        kind = kind;
        entity_id = entity_id;
        accepted_at = accepted_at;
        payload_sha256 = digest payload;
        payload = payload;
      } in
      let sub : AuthoritySubtype Float = record {
        authority_position = next_position previous;
        kind = kind;
        subtype_id = entity_id;
        payload_sha256 = digest payload;
        payload = payload;
      } in
      record s {
        authority_events = s.authority_events ++ e ∷ [];
        authority_event_subtypes = s.authority_event_subtypes ++ sub ∷ [];
      }

  -- `record_authority_mutation`, at a resolved kind.
  unfoldable pub record_authority_mutation :
      AuthorityMutationKind → Uuid → Instant → String → JournalStore Float → ℕ × JournalStore Float
  unfolding append_authority
  record_authority_mutation kind entity_id accepted_at json s = (
    next_position (last s.authority_events),
    append_authority kind entity_id accepted_at (mutation json) s,
  )
