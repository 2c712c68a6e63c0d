-- ===== src/Projections/Examples.antt =====
-- Tests of the projections and their theorems at concrete inputs.
use sentinel_edge.Prelude.{
  length, nat_eq, ℕ, ◌+◌, ◌≤◌, String, ◌≡◌, refl, ◌↔◌, true, false, none, some, List, [], ◌∷◌,
  arith, ok,
}
use sentinel_edge.Storage.Journal.{empty_store}
use sentinel_edge.Storage.Journal.Chain.{IsChained}
use sentinel_edge.Incidents.{Engine, init}
use sentinel_edge.Incidents.Projection.{IsProjected}
use sentinel_edge.Incidents.Conformance.Histories.{apply_all, apply_all-conforms, empty-IsProjected}
use sentinel_edge.Incidents.Examples.{hundredths_only, plain, smoke, flames}
use sentinel_edge.Incidents.Examples.Restart.{text}
use sentinel_edge.Projections.Buffer.{ClientBuffer, offer, drain}
use sentinel_edge.Projections.Buffer.Deliveries.{
  Call, offering, draining, run, Delivers, run-Delivers,
}
use sentinel_edge.Projections.Service.{
  ProjectionCursor, SignedProjection, Signing, ProjectionService, Continuity, projection, snapshot,
  verify, continuity,
}
use sentinel_edge.Projections.Service.Snapshots.{IsSnapshot, snapshot-verify, continuity_iff}

abbrev buffer : ClientBuffer ℕ
buffer = record { capacity = 2; items = []; resync_required = false }

abbrev calls : List (Call ℕ)
calls = offering 1 ∷ offering 2 ∷ draining (some 1) ∷ offering 3 ∷ []

first_delivered : (run calls buffer).1 ≡ 1 ∷ []
unfolding run offer drain
first_delivered = refl

run-Delivers_example : Delivers calls buffer
run-Delivers_example = run-Delivers calls buffer (omega arith)

abbrev overflow : List (Call ℕ)
overflow = offering 1 ∷ offering 2 ∷ offering 3 ∷ draining none ∷ []

overflow_requires_resync : (run overflow buffer).2.resync_required ≡ true
unfolding run offer drain
overflow_requires_resync = refl

abbrev engine : Engine ℕ
engine = apply_all hundredths_only plain ((smoke, 110) ∷ (flames, 210) ∷ []) (init empty_store 3)

engine-conforms : IsProjected engine × IsChained plain.authority_digest text engine.journal
unfolding init
engine-conforms =
    apply_all-conforms hundredths_only plain text ((smoke, 110) ∷ (flames, 210) ∷ [])
      (init empty_store 3) (empty-IsProjected hundredths_only plain text 3) tt

abbrev signing : Signing ℕ
signing = record {
  payload_digest = λ p. p.rebuild_state;
  tag = λ digest cursor. cursor.scope_sha256;
}

abbrev service : ProjectionService
service = record { stream_epoch = 9; rebuild_state = "ready"; created_at = 1 }

snapshot-verify_example :
    (s : SignedProjection ℕ) × (snapshot plain.authority_digest text signing none "scope" service
        engine
      ≡ ok s)
    × (verify plain.authority_digest text signing s ≡ true)
    × IsSnapshot plain.authority_digest text signing "scope" service engine s
snapshot-verify_example =
    snapshot-verify plain.authority_digest text signing none "scope" service engine
      engine-conforms.0 engine-conforms.1

abbrev cursor : ProjectionCursor
cursor = record {
  stream_epoch = 9;
  authority_position = 3;
  projection_version = 1;
  scope_sha256 = "scope";
}

abbrev scope : String
scope = "scope"

continuity_iff_example :
    (k : Continuity) × (s : SignedProjection ℕ) × (continuity plain.authority_digest text signing
        (some (some cursor))
        scope
        service
        engine
      ≡ ok (k, s))
    × (verify plain.authority_digest text signing s ≡ true)
    × IsSnapshot plain.authority_digest text signing scope service engine s
    × ((k ≡ projection) ↔ (
        (cursor.stream_epoch ≡ service.stream_epoch)
        × (cursor.scope_sha256 ≡ scope)
        × (cursor.authority_position ≤ length engine.journal.authority_events)
        × (length engine.journal.authority_events ≤ cursor.authority_position + 1)))
continuity_iff_example =
    continuity_iff plain.authority_digest text signing cursor scope service engine engine-conforms.0
      engine-conforms.1
