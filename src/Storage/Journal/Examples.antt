-- ===== src/Storage/Journal/Examples.antt =====
-- A short history of the journal, with tests of it and its theorems at concrete inputs.
use sentinel_edge.Prelude.{
  if◌then◌else◌, length, nat_eq, ℕ, ◌+◌, String, ◌≡◌, refl, ◌⊎◌, true, none, some, List, [], ◌∷◌,
  ◌++◌, ok,
}
use sentinel_edge.Domain.Kinds.{
  HazardKind, IncidentState, CoverageState, SourceMode, NotificationStatus, AuthorityMutationKind,
  CommandStatus, IncidentCommandKind,
}
use sentinel_edge.Domain.Records.{
  IncidentRecord, NotificationIntent, NotificationKey, CommandReceipt, Operation, Target,
  IncidentRelation,
}
use sentinel_edge.Storage.Journal.{AuthorityPayload, JournalStore, empty_store, append_authority}
use sentinel_edge.Storage.Journal.Reads.{command_receipt}
use sentinel_edge.Storage.Journal.Writes.{record_command_receipt}
use sentinel_edge.Storage.Journal.Receipts.{record_command_receipt-found}
use sentinel_edge.Storage.Journal.Chain.{authority_conformance}
use sentinel_edge.Storage.Journal.History.{Write, write_all, write_all-conforms}
use sentinel_edge.Storage.Journal.Delivery.{send_all}
use sentinel_edge.Storage.Journal.Delivery.Effects.{effects_of, empty_sink, asks_for, send_all-once}

abbrev flood : ℕ → IncidentRecord ℕ
flood version = record {
  incident_id = 40;
  hazard = HazardKind.flood;
  state = IncidentState.watch;
  confidence = 50;
  coverage = CoverageState.sufficient;
  source_mode = SourceMode.live;
  first_observed_at = 10;
  last_observed_at = 10 + version;
  event_time_watermark = none;
  version = version;
  reason_codes = [];
  analysis_ids = version ∷ [];
  correlation_ids = [];
  last_boot_id = "boot-1";
  source_lineage = "sensor";
  model_profile_id = "m1";
  config_hashes = [];
  labels = [];
}

abbrev key : ℕ → NotificationKey
key version = record { incident_id = 40; version = version; state = IncidentState.watch }

abbrev intent : ℕ → NotificationIntent
intent version = record {
  notification_id = 500 + version;
  incident_id = 40;
  hazard = HazardKind.flood;
  incident_version = version;
  incident_state = IncidentState.watch;
  idempotency_key = key version;
  status = NotificationStatus.pending;
  created_at = 20;
  updated_at = 20;
  attempt_count = 0;
  max_attempts = 3;
  last_error = none;
  receipt_id = none;
  reason_codes = [];
}

abbrev digest : AuthorityPayload ℕ → String
digest p = "digest"

abbrev relation_digest : IncidentRelation ℕ → String
relation_digest r = "relation"

-- The second write is refused, since the version is taken.
abbrev writes : List (Write ℕ)
writes =
    Write.incident (flood 1) (some (intent 1))
    ∷ Write.incident (flood 1) none
    ∷ Write.delivery 501 (ok "receipt") 30
    ∷ Write.mutation AuthorityMutationKind.configuration 7 40 "bundle"
    ∷ []

write_all-conforms_example :
    let s = write_all digest digest relation_digest writes empty_store in
    authority_conformance digest digest s ≡ record {
      valid = true;
      epoch_id = "authority-epoch-1";
      event_count = length s.authority_events;
      highest_contiguous_position = length s.authority_events;
      failures = [];
    }
write_all-conforms_example = write_all-conforms digest digest relation_digest writes

send_all-once_example :
    effects_of (key 1) (send_all (intent 1 ∷ intent 2 ∷ intent 1 ∷ []) empty_sink)
    ≡ (if asks_for (key 1) (intent 1 ∷ intent 2 ∷ intent 1 ∷ []) then 1 else 0)
send_all-once_example = send_all-once (intent 1 ∷ intent 2 ∷ intent 1 ∷ []) (key 1)

abbrev receipt : CommandReceipt
receipt = record {
  command_id = 9;
  principal_id = "operator";
  operation = Operation.status IncidentCommandKind.resolve;
  target = Target.status 40 IncidentCommandKind.resolve;
  scoped_idempotency_key = "scope";
  payload_sha256 = "payload";
  status = CommandStatus.committed;
  accepted_at = 50;
  committed_at = none;
  result_version = some 2;
  result_sha256 = none;
  reason_codes = [];
}

abbrev nothing : JournalStore ℕ
nothing = empty_store

abbrev with_receipt : JournalStore ℕ
with_receipt = (record_command_receipt digest receipt nothing).1

receipt-stored : record_command_receipt digest receipt nothing ≡ (ok receipt, with_receipt)
unfolding record_command_receipt command_receipt append_authority
receipt-stored = refl

record_command_receipt-found_example :
    (command_receipt with_receipt "scope" ≡ some receipt)
    × (receipt.payload_sha256 ≡ receipt.payload_sha256)
    × (with_receipt.incident_events ≡ nothing.incident_events)
    × (with_receipt.notification_intents ≡ nothing.notification_intents)
    × (with_receipt.incident_relations ≡ nothing.incident_relations)
    × (with_receipt.review_actions ≡ nothing.review_actions)
    × (with_receipt.incident_review_state ≡ nothing.incident_review_state)
    × (with_receipt.command_receipts ≡ nothing.command_receipts
        ⊎ (with_receipt.command_receipts ≡ nothing.command_receipts ++ receipt ∷ []))
record_command_receipt-found_example =
    record_command_receipt-found digest receipt receipt nothing with_receipt receipt-stored
