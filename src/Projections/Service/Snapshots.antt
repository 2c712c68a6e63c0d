-- ===== src/Projections/Service/Snapshots.antt =====
-- Snapshots of a conforming engine (src/sentinel_edge/projections/service.py).
use sentinel_edge.Prelude.{
  if◌then◌else◌, length, is_blank, nat_eq, ℕ, ◌+◌, ◌≤◌, String, ◌≡◌, refl, ap, ◌↔◌, true, Option,
  none, some, [], arith, eq_iff, ok,
}
use sentinel_edge.Domain.Kinds.{Instant}
use sentinel_edge.Storage.Journal.{AuthorityPayload}
use sentinel_edge.Storage.Journal.Reads.{command_receipts}
use sentinel_edge.Storage.Journal.Chain.{authority_conformance, IsChained, Conformance}
use sentinel_edge.Storage.Journal.Chain.Valid.{authority_conformance-valid}
use sentinel_edge.Incidents.{Engine}
use sentinel_edge.Incidents.Projection.{IsProjected}
use sentinel_edge.Incidents.Conformance.{
  AuthorityWatermark, from_conformance, validate_watermark, ProjectionConformance,
}
use sentinel_edge.Incidents.Conformance.Histories.{projection_conformance-valid}
use sentinel_edge.Projections.Service.{
  ProjectionCursor, SignedProjection, Signing, ProjectionService, projection, projection_of,
  payload_of, Continuity, resync_required, follows, current, ids_of, snapshot, verify, continuity,
}

module _ {Float : Type 0} (digest json : AuthorityPayload Float → String)
    (sig : Signing Float) where
  projection_of-verify :
      (at : Option Instant) (scope : String) (w : AuthorityWatermark) (p : ProjectionService)
      (e : Engine Float)
      → verify digest json sig (projection_of digest json sig at scope w p e) ≡ true
  unfolding verify projection_of payload_of
  projection_of-verify at scope w p e =
      let s = projection_of digest json sig at scope w p e in
      ground (
        arith,
        eq_iff s.payload_sha256 s.payload_sha256,
        eq_iff s.authentication_tag s.authentication_tag,
      )

  abbrev full_watermark : ℕ → AuthorityWatermark
  full_watermark count = record {
    epoch_id = "authority-epoch-1";
    highest_contiguous_position = count;
    accepted_event_count = count;
    valid = true;
    failures = [];
  }

  from_conformance-full :
      (c : Conformance) (count : ℕ)
      → c ≡ record {
        valid = true;
        epoch_id = "authority-epoch-1";
        event_count = count;
        highest_contiguous_position = count;
        failures = [];
      }
      → from_conformance c ≡ some (full_watermark count)
  unfolding from_conformance validate_watermark is_blank
  from_conformance-full c count h = ap from_conformance h

  -- What a snapshot shows of a service and an engine.
  pub record IsSnapshot (scope : String) (p : ProjectionService) (e : Engine Float)
      (s : SignedProjection Float) : Type 0 where
    pub epoch : s.cursor.stream_epoch ≡ p.stream_epoch
    pub position : s.cursor.authority_position ≡ length e.journal.authority_events
    pub scoped : s.cursor.scope_sha256 ≡ scope
    pub incidents : s.incidents ≡ current e
    pub command_ids : s.command_ids ≡ ids_of (command_receipts e.journal)

  -- An engine whose current records are the journal's latest, on a chained journal, always has a
  -- snapshot. It passes `verify`, which builds the signed payload anew from the projection's fields.
  -- It shows the current incidents and the identities of the receipts in the order of acceptance, and
  -- its cursor has the service's epoch, the given scope, and the number of authority events as its
  -- position.
  pub snapshot-verify :
      (at : Option Instant) (scope : String) (p : ProjectionService) (e : Engine Float)
      → IsProjected e
      → IsChained digest json e.journal
      → (s : SignedProjection Float) × (snapshot digest json sig at scope p e ≡ ok s)
        × (verify digest json sig s ≡ true)
        × IsSnapshot scope p e s
  unfolding snapshot projection_of
  snapshot-verify at scope p e i c =
      let count = length e.journal.authority_events in
      (
        projection_of digest json sig at scope (full_watermark count) p e,
        ground (
          arith,
          ap (λ (k : ProjectionConformance). k.valid)
              (projection_conformance-valid digest json e i c),
          from_conformance-full (authority_conformance digest json e.journal) count
              (authority_conformance-valid digest json e.journal c),
        ),
        projection_of-verify at scope (full_watermark count) p e,
        record {
          epoch = refl;
          position = refl;
          scoped = refl;
          incidents = refl;
          command_ids = refl;
        },
      )

  continuity-follows :
      (previous : ProjectionCursor) (scope : String) (p : ProjectionService) (e : Engine Float)
      (s : SignedProjection Float)
      → snapshot digest json sig none scope p e ≡ ok s
      → (k : Continuity) × (continuity digest json sig (some (some previous)) scope p e ≡ ok (k, s))
        × ((k ≡ projection) ↔ (
            (previous.stream_epoch ≡ s.cursor.stream_epoch)
            × (previous.scope_sha256 ≡ s.cursor.scope_sha256)
            × (previous.authority_position ≤ s.cursor.authority_position)
            × (s.cursor.authority_position ≤ previous.authority_position + 1)))
  unfolding continuity
  continuity-follows previous scope p e s h = (
    if follows digest json sig previous s.cursor then projection else resync_required,
    ground arith,
    (
      λ k. ground (arith, eq_iff previous.scope_sha256 s.cursor.scope_sha256),
      λ k. ground (arith, eq_iff previous.scope_sha256 s.cursor.scope_sha256),
    ),
  )

  -- On an engine whose current records are the journal's latest, with a chained journal, a client
  -- that names a cursor is answered with a snapshot that verifies and shows the engine's state. It
  -- may go on from its cursor without a resynchronisation exactly when the cursor has the service's
  -- epoch and the requested scope, and stands at the number of authority events or one before it.
  pub continuity_iff :
      (previous : ProjectionCursor) (scope : String) (p : ProjectionService) (e : Engine Float)
      → IsProjected e
      → IsChained digest json e.journal
      → (k : Continuity) × (s : SignedProjection Float) × (continuity digest json sig
            (some (some previous))
            scope
            p
            e
          ≡ ok (k, s))
        × (verify digest json sig s ≡ true)
        × IsSnapshot scope p e s
        × ((k ≡ projection) ↔ (
            (previous.stream_epoch ≡ p.stream_epoch)
            × (previous.scope_sha256 ≡ scope)
            × (previous.authority_position ≤ length e.journal.authority_events)
            × (length e.journal.authority_events ≤ previous.authority_position + 1)))
  continuity_iff previous scope p e i c =
      let (s, made, verified, shown) = snapshot-verify none scope p e i c in
      let (k, answered, (to, back)) = continuity-follows previous scope p e s made in
      let epoch = shown.epoch in
      let position = shown.position in
      let scoped = shown.scoped in
      (
        k,
        s,
        answered,
        verified,
        shown,
        (λ h. let f = to h in ground arith, λ h. back (ground arith)),
      )
