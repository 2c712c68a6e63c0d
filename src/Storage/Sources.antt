-- ===== src/Storage/Sources.antt =====
-- `SourceCursorStore` of src/sentinel_edge/storage/sqlite_store.py, with `HealthState`,
-- `SourceHealth` and `SourceHealthEvent` of src/sentinel_edge/domain/models.py.
pub mod Events
pub mod Log
pub mod Examples
use sentinel_edge.Prelude.{
  ltb, ◌==◌, if◌then◌else◌, or_default, any, list_eq, Result, nat_eq, string_eq, Dict, lookup,
  insert, ℕ, String, Bool, true, false, not, ◌&&◌, ◌||◌, Option, none, some, List, [], ◌∷◌, ◌++◌,
  str_eq, ok, err,
}
use sentinel_edge.Domain.Kinds.{Uuid, Instant}

pub data HealthState : Type 0 where
  healthy degraded stale failed unknown : HealthState

abbrev pub same_health : HealthState → HealthState → Bool
same_health healthy healthy = true
same_health degraded degraded = true
same_health stale stale = true
same_health failed failed = true
same_health unknown unknown = true
same_health _ _ = false

pub record SourceHealth (Float : Type 0) : Type 0 where
  pub source_id : String
  pub state : HealthState
  pub boot_id : Option String
  pub clock_epoch : Option ℕ
  pub last_sequence : Option ℕ
  pub last_observed_at : Option Instant
  pub event_time_watermark : Option Instant
  pub clock_uncertainty_ms : Float
  pub reason_codes : List String

pub record SourceHealthEvent (Float : Type 0) : Type 0 where
  pub event_id : Uuid
  pub source_id : String
  pub previous_state : Option HealthState
  pub state : HealthState
  pub recorded_at : Instant
  pub boot_id : Option String
  pub sequence : Option ℕ
  pub clock_uncertainty_ms : Float
  pub reason_codes : List String

-- A row of `source_cursors`, without its key.
pub record SourceCursor (Float : Type 0) : Type 0 where
  pub boot_id : String
  pub clock_epoch : ℕ
  pub last_sequence : ℕ
  pub last_observed_at : Instant
  pub clock_uncertainty_ms : Float
  pub state : HealthState
  pub reason_codes : List String

-- The parts of the text that names an event.
pub record EventKey : Type 0 where
  pub source_id : String
  pub previous_state : Option HealthState
  pub state : HealthState
  pub last_sequence : ℕ
  pub recorded_at : Instant
  pub reason_codes : List String

pub record SourceCursorStore (Float : Type 0) : Type 0 where
  pub source_cursors : Dict String (SourceCursor Float)
  pub source_health_events : List (SourceHealthEvent Float)

pub data SourceError : Type 0 where
  incomplete_cursor event_exists : SourceError

module _ {Float : Type 0} where
  abbrev pub empty_sources : SourceCursorStore Float
  empty_sources = record { source_cursors = []; source_health_events = [] }

  -- The cursor of a complete health record.
  unfoldable pub cursor_of : SourceHealth Float → Option (SourceCursor Float)
  cursor_of h = elim h.boot_id [
    | none ↦ none
    | some boot_id ↦ elim h.clock_epoch [
      | none ↦ none
      | some clock_epoch ↦ elim h.last_sequence [
        | none ↦ none
        | some last_sequence ↦ elim h.last_observed_at [
          | none ↦ none
          | some last_observed_at ↦ some (record {
            boot_id = boot_id;
            clock_epoch = clock_epoch;
            last_sequence = last_sequence;
            last_observed_at = last_observed_at;
            clock_uncertainty_ms = h.clock_uncertainty_ms;
            state = h.state;
            reason_codes = h.reason_codes;
          })
        ]
      ]
    ]
  ]

  abbrev pub state_of : Option (SourceCursor Float) → Option HealthState
  state_of none = none
  state_of (some c) = some c.state

  -- Whether the state or the reasons differ from those before.
  abbrev pub is_news : Option (SourceCursor Float) → SourceCursor Float → Bool
  is_news none c = true
  is_news (some p) c =
      not (same_health p.state c.state) || not (list_eq str_eq p.reason_codes c.reason_codes)

  abbrev pub event_key :
      String → Option (SourceCursor Float) → SourceCursor Float → Instant → EventKey
  event_key source_id previous c recorded_at = record {
    source_id = source_id;
    previous_state = state_of previous;
    state = c.state;
    last_sequence = c.last_sequence;
    recorded_at = recorded_at;
    reason_codes = c.reason_codes;
  }

  module _ (event_uuid : EventKey → Uuid) where
    abbrev pub event_of :
        String
        → Option (SourceCursor Float)
        → SourceCursor Float
        → Instant
        → SourceHealthEvent Float
    event_of source_id previous c recorded_at = record {
      event_id = event_uuid (event_key source_id previous c recorded_at);
      source_id = source_id;
      previous_state = state_of previous;
      state = c.state;
      recorded_at = recorded_at;
      boot_id = some c.boot_id;
      sequence = some c.last_sequence;
      clock_uncertainty_ms = c.clock_uncertainty_ms;
      reason_codes = c.reason_codes;
    }

    -- The transaction of `upsert`.
    unfoldable pub store_cursor :
        String
        → SourceCursor Float
        → Option Instant
        → SourceCursorStore Float
        → Result SourceError (Unit {0}) × SourceCursorStore Float
    store_cursor source_id c recorded_at s =
        let previous = lookup source_id s.source_cursors in
        let event = event_of source_id previous c (or_default recorded_at c.last_observed_at) in
        let t = record s { source_cursors = insert source_id c s.source_cursors } in
        if not (is_news previous c)
        then (ok tt, t)
        else if any (λ (e : SourceHealthEvent Float). e.event_id == event.event_id)
            s.source_health_events
        then (err event_exists, s)
        else (ok tt, record t { source_health_events = s.source_health_events ++ event ∷ [] })

    unfoldable pub upsert :
        SourceHealth Float
        → Option Instant
        → SourceCursorStore Float
        → Result SourceError (Unit {0}) × SourceCursorStore Float
    upsert h recorded_at s = elim (cursor_of h) [
      | none ↦ (err incomplete_cursor, s)
      | some c ↦ store_cursor h.source_id c recorded_at s
    ]

  -- Events are read in the order of their times, and of their names at one time.
  unfoldable pub recorded_before : SourceHealthEvent Float → SourceHealthEvent Float → Bool
  recorded_before a b =
      ltb a.recorded_at b.recorded_at
      || (a.recorded_at == b.recorded_at && ltb a.event_id b.event_id)

  unfoldable pub insert_by_time :
      SourceHealthEvent Float → List (SourceHealthEvent Float) → List (SourceHealthEvent Float)
  insert_by_time e [] = e ∷ []
  insert_by_time e (x ∷ xs) =
      let rest = insert_by_time e xs in if recorded_before e x then e ∷ x ∷ xs else x ∷ rest

  unfoldable pub in_recorded_order :
      List (SourceHealthEvent Float)
      → List (SourceHealthEvent Float)
      → List (SourceHealthEvent Float)
  in_recorded_order [] done = done
  in_recorded_order (e ∷ es) done = in_recorded_order es (insert_by_time e done)

  unfoldable pub events : SourceCursorStore Float → List (SourceHealthEvent Float)
  events s = in_recorded_order s.source_health_events []
