-- ===== src/Storage/Sources/Examples.antt =====
-- Health records of a source, with the theorem at a concrete input.
use sentinel_edge.Prelude.{
  length, nat_eq, string_eq, lookup, ℕ, ◌+◌, ◌*◌, String, ◌≡◌, refl, Option, none, some, List, [],
  ◌∷◌, err,
}
use sentinel_edge.Domain.Kinds.{Uuid, Instant}
use sentinel_edge.Storage.Sources.{
  events, in_recorded_order, insert_by_time, recorded_before, HealthState, SourceHealth, EventKey,
  SourceError, cursor_of, store_cursor, upsert, empty_sources,
}
use sentinel_edge.Storage.Sources.Events.{replayed}
use sentinel_edge.Storage.Sources.Log.{status_of, upsert_all}

abbrev health : Instant → HealthState → List String → SourceHealth ℕ
health at state reasons = record {
  source_id = "camera";
  state = state;
  boot_id = some "boot-1";
  clock_epoch = some 1;
  last_sequence = some 7;
  last_observed_at = some at;
  event_time_watermark = none;
  clock_uncertainty_ms = 3;
  reason_codes = reasons;
}

abbrev health_index : Option HealthState → ℕ
health_index none = 0
health_index (some HealthState.healthy) = 1
health_index (some HealthState.stale) = 2
health_index (some _) = 3

abbrev event_uuid : EventKey → Uuid
event_uuid k =
    k.last_sequence * 100 + health_index k.previous_state * 10 + health_index (some k.state)

-- Four updates, each at its own time.
abbrev steps : List (SourceHealth ℕ × Option Instant)
steps =
    (health 50 HealthState.healthy [], none)
    ∷ (health 50 HealthState.healthy [], some 60)
    ∷ (health 70 HealthState.stale ("late" ∷ []), none)
    ∷ (health 80 HealthState.healthy [], none)
    ∷ []

three-events : length (events (upsert_all event_uuid steps empty_sources)) ≡ 3
unfolding events in_recorded_order insert_by_time recorded_before upsert_all upsert store_cursor
    cursor_of
three-events = refl

-- A source that goes stale, recovers and goes stale again at one sequence number and time.
abbrev flapping : List (SourceHealth ℕ × Option Instant)
flapping =
    (health 50 HealthState.healthy [], none)
    ∷ (health 50 HealthState.stale ("late" ∷ []), none)
    ∷ (health 50 HealthState.healthy [], none)
    ∷ []

-- The last event is there already, so that the update is refused and the source stays healthy.
flapping-refused :
    (upsert event_uuid
      (health 50 HealthState.stale ("late" ∷ []))
      none
      (upsert_all event_uuid flapping empty_sources)).0
    ≡ err SourceError.event_exists
unfolding upsert_all upsert store_cursor cursor_of
flapping-refused = refl

-- Names that are ordered by the state first.
abbrev state_uuid : EventKey → Uuid
state_uuid k = health_index (some k.state) * 10 + health_index k.previous_state

-- Events of one time are read in the order of their names: with these, the replay ends in the stale state
-- although the source is healthy.
flapping-misread :
    (replayed "camera" (events (upsert_all state_uuid flapping empty_sources)) none
      ≡ some (HealthState.stale, "late" ∷ []))
    × (status_of (lookup "camera" (upsert_all state_uuid flapping empty_sources).source_cursors)
        ≡ some (HealthState.healthy, []))
unfolding events in_recorded_order insert_by_time recorded_before upsert_all upsert store_cursor
    cursor_of replayed
flapping-misread = (refl, refl)
