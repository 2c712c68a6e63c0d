-- ===== src/Projections/Service.antt =====
-- `ProjectionService` of src/sentinel_edge/projections/service.py. A cursor stands for its text; the
-- texts of clients are taken as parsed, or as unreadable. The incidents stand for their JSON, and the
-- digest and the tag, an HMAC under the service's secret, are functions of what they cover.
pub mod Snapshots
use Prim.Native.Nat.{max}
use sentinel_edge.Prelude.{
  leb, ◌==◌, if◌then◌else◌, last, Result, is_blank, nat_eq, Dict, lookup, insert, ℕ, ◌-◌, String,
  Bool, not, ◌&&◌, Option, none, some, List, [], ◌∷◌, ◌++◌, str_eq, ok, err,
}
use sentinel_edge.Domain.Kinds.{Uuid, Instant, HazardKind}
use sentinel_edge.Domain.Kinds.Equality.{hazard_eq}
use sentinel_edge.Domain.Records.{IncidentRecord, CommandReceipt, Target}
use sentinel_edge.Storage.Journal.{AuthorityPayload, JournalStore}
use sentinel_edge.Storage.Journal.Reads.{command_receipts}
use sentinel_edge.Storage.Journal.Chain.{authority_conformance}
use sentinel_edge.Incidents.{Engine}
use sentinel_edge.Incidents.Conformance.{
  AuthorityWatermark, from_conformance, projection_conformance, hazards,
}

pub record ProjectionCursor : Type 0 where
  pub stream_epoch : Uuid
  pub authority_position : ℕ
  pub projection_version : ℕ
  pub scope_sha256 : String

-- The dictionary that the digest covers.
pub record Payload (Float : Type 0) : Type 0 where
  pub schema : String
  pub cursor : ProjectionCursor
  pub generated_at : Instant
  pub rebuild_state : String
  pub projection_lag : ℕ
  pub last_applied_authority_position : ℕ
  pub authority_watermark : AuthorityWatermark
  pub incidents : List (IncidentRecord Float)
  pub command_ids : List Uuid
  pub aggregate_versions : Dict Uuid ℕ
  pub causation_command_ids : Dict Uuid (List Uuid)

pub record SignedProjection (Float : Type 0) : Type 0 where
  pub schema_id : String
  pub cursor : ProjectionCursor
  pub generated_at : Instant
  pub rebuild_state : String
  pub projection_lag : ℕ
  pub last_applied_authority_position : ℕ
  pub authority_watermark : AuthorityWatermark
  pub incidents : List (IncidentRecord Float)
  pub command_ids : List Uuid
  pub aggregate_versions : Dict Uuid ℕ
  pub causation_command_ids : Dict Uuid (List Uuid)
  pub payload_sha256 : String
  pub authentication_tag : String

abbrev schema_default : String
schema_default = "sentinel-edge-incident-projection/1.0"

pub record Signing (Float : Type 0) : Type 0 where
  pub payload_digest : Payload Float → String
  pub tag : (payload_sha256 : String) → ProjectionCursor → String

pub record ProjectionService : Type 0 where
  pub stream_epoch : Uuid
  pub rebuild_state : String
  pub created_at : Instant

pub data ProjectionError : Type 0 where
  conformance_failed watermark_invalid epoch_reason_blank : ProjectionError

pub data Continuity : Type 0 where
  projection resync_required : Continuity

-- A fresh epoch at a time.
unfoldable pub rotate_epoch :
    (reason : String)
    → Uuid
    → Instant
    → ProjectionService
    → Result ProjectionError ProjectionService
rotate_epoch reason epoch at p =
    if is_blank reason
    then err epoch_reason_blank
    else ok (record { stream_epoch = epoch; rebuild_state = "ready"; created_at = at })

abbrev to_list {ℓ} : {A : Type ℓ} → Option A → List A
to_list none = []
to_list (some a) = a ∷ []

abbrev no_commands : Dict Uuid ℕ → Dict Uuid (List Uuid)
no_commands [] = []
no_commands ((id, version) ∷ d) = (id, []) ∷ no_commands d

-- A receipt counts for its incident where its target is the text `incident:{id}`.
abbrev bind_command : CommandReceipt → Dict Uuid (List Uuid) → Dict Uuid (List Uuid)
bind_command r d = elim r.target [
  | Target.status id command ↦ d
  | Target.incident id ↦ elim (lookup id d) [
    | none ↦ d
    | some ids ↦ insert id (ids ++ r.command_id ∷ []) d
  ]
]

abbrev bind_all : List CommandReceipt → Dict Uuid (List Uuid) → Dict Uuid (List Uuid)
bind_all [] d = d
bind_all (r ∷ rs) d = bind_all rs (bind_command r d)

abbrev ids_of : List CommandReceipt → List Uuid
ids_of [] = []
ids_of (r ∷ rs) = r.command_id ∷ ids_of rs

module _ {Float : Type 0} where
  -- `current` of the engine, in the order of the hazards' texts.
  abbrev current_in :
      List HazardKind → Dict HazardKind (IncidentRecord Float) → List (IncidentRecord Float)
  current_in [] d = []
  current_in (h ∷ hs) d = to_list (lookup h d) ++ current_in hs d

  unfoldable pub current : Engine Float → List (IncidentRecord Float)
  current e = current_in hazards e.current

  abbrev highest_version : List (IncidentRecord Float) → ℕ
  highest_version [] = 0
  highest_version (r ∷ rs) = max r.version (highest_version rs)

  abbrev versions_of : List (IncidentRecord Float) → Dict Uuid ℕ → Dict Uuid ℕ
  versions_of [] d = d
  versions_of (r ∷ rs) d = versions_of rs (insert r.incident_id r.version d)

  -- The last event's time where none is given, the service's own on an empty journal.
  abbrev generated : Option Instant → ProjectionService → JournalStore Float → Instant
  generated (some at) p s = at
  generated none p s = elim (last s.authority_events) [
    | none ↦ p.created_at
    | some e ↦ e.accepted_at
  ]

  module _ (digest json : AuthorityPayload Float → String) (sig : Signing Float) where
    -- The part of `snapshot` that follows the checks.
    unfoldable pub projection_of :
        Option Instant
        → (scope : String) → AuthorityWatermark
        → ProjectionService
        → Engine Float
        → SignedProjection Float
    unfolding current
    projection_of at scope w p e =
        let position = w.highest_contiguous_position in
        let generated_at = generated at p e.journal in
        let receipts = command_receipts e.journal in
        let versions = versions_of (current e) [] in
        let commands = bind_all receipts (no_commands versions) in
        let cursor : ProjectionCursor = record {
          stream_epoch = p.stream_epoch;
          authority_position = position;
          projection_version = highest_version (current e);
          scope_sha256 = scope;
        } in
        let payload : Payload Float = record {
          schema = "sentinel-edge-incident-projection/1.0";
          cursor = cursor;
          generated_at = generated_at;
          rebuild_state = p.rebuild_state;
          projection_lag = 0;
          last_applied_authority_position = position;
          authority_watermark = w;
          incidents = current e;
          command_ids = ids_of receipts;
          aggregate_versions = versions;
          causation_command_ids = commands;
        } in
        let digest_ = sig.payload_digest payload in
        record {
          schema_id = schema_default;
          cursor = cursor;
          generated_at = generated_at;
          rebuild_state = p.rebuild_state;
          projection_lag = 0;
          last_applied_authority_position = position;
          authority_watermark = w;
          incidents = payload.incidents;
          command_ids = payload.command_ids;
          aggregate_versions = versions;
          causation_command_ids = commands;
          payload_sha256 = digest_;
          authentication_tag = sig.tag digest_ cursor;
        }

    -- `scope` is the digest of the principal's scope and the filter.
    unfoldable pub snapshot :
        Option Instant
        → (scope : String) → ProjectionService
        → Engine Float
        → Result ProjectionError (SignedProjection Float)
    snapshot at scope p e =
        if not (projection_conformance digest json e).valid
        then err conformance_failed
        else elim (from_conformance (authority_conformance digest json e.journal)) [
          | none ↦ err watermark_invalid
          | some w ↦
              if not w.valid then err watermark_invalid else ok (projection_of at scope w p e)
        ]

    -- The payload as `verify` builds it from a projection.
    unfoldable pub payload_of : SignedProjection Float → Payload Float
    payload_of p = record {
      schema = p.schema_id;
      cursor = p.cursor;
      generated_at = p.generated_at;
      rebuild_state = p.rebuild_state;
      projection_lag = p.projection_lag;
      last_applied_authority_position = p.last_applied_authority_position;
      authority_watermark = p.authority_watermark;
      incidents = p.incidents;
      command_ids = p.command_ids;
      aggregate_versions = p.aggregate_versions;
      causation_command_ids = p.causation_command_ids;
    }

    unfoldable pub verify : SignedProjection Float → Bool
    verify p =
        let payload_sha256 = sig.payload_digest (payload_of p) in
        str_eq payload_sha256 p.payload_sha256
        && str_eq (sig.tag payload_sha256 p.cursor) p.authentication_tag

    -- Whether a client at a cursor may go on from the next projection.
    abbrev pub follows : ProjectionCursor → ProjectionCursor → Bool
    follows previous now =
        previous.stream_epoch == now.stream_epoch
        && str_eq previous.scope_sha256 now.scope_sha256
        && leb previous.authority_position now.authority_position
        && leb (now.authority_position - 1) previous.authority_position

    -- `last_event_id` is absent, unreadable, or a cursor.
    unfoldable pub continuity :
        Option (Option ProjectionCursor)
        → (scope : String) → ProjectionService
        → Engine Float
        → Result ProjectionError (Continuity × SignedProjection Float)
    continuity last_event_id scope p e = elim (snapshot none scope p e) [
      | err x ↦ err x
      | ok now ↦ elim last_event_id [
        | none ↦ ok (projection, now)
        | some none ↦ ok (resync_required, now)
        | some (some previous) ↦
            ok (if follows previous now.cursor then projection else resync_required, now)
      ]
    ]
