-- ===== src/Storage/Sources/Log.antt =====
-- The health events of `SourceCursorStore` (src/sentinel_edge/storage/sqlite_store.py) as a log of the
-- sources' states.
use sentinel_edge.Prelude.{
  leb, if◌then◌else◌, or_default, nat_eq, string_eq, lookup, ℕ, ◌+◌, String, ◌≡◌, Bool, true, ◌&&◌,
  Option, none, some, List, [], ◌∷◌, str_eq,
}
use sentinel_edge.Domain.Kinds.{Uuid, Instant}
use sentinel_edge.Storage.Sources.Events.{Status, replayed, IsOrdered, IsEarlier}
use sentinel_edge.Storage.Sources.{
  events, SourceHealth, SourceCursor, SourceCursorStore, EventKey, cursor_of, upsert,
}

module _ {Float : Type 0} where
  abbrev pub status_of : Option (SourceCursor Float) → Option Status
  status_of none = none
  status_of (some c) = some (c.state, c.reason_codes)

  -- The events of a source are read in order, are earlier than a time and tell the source's status.
  pub record IsLogged (id : String) (t : ℕ) (s : SourceCursorStore Float) : Type 0 where
    pub ordered : IsOrdered (events s)
    pub earlier : IsEarlier id t (events s)
    pub told : replayed id (events s) none ≡ status_of (lookup id s.source_cursors)

  -- Whether the complete health records of a source have later and later times, from one on.
  unfoldable pub timely : String → ℕ → List (SourceHealth Float × Option Instant) → Bool
  timely id t [] = true
  timely id t ((h, at) ∷ hs) = elim (cursor_of h) [
    | none ↦ timely id t hs
    | some c ↦
        let now = or_default at c.last_observed_at in
        let of_source = timely id (now + 1) hs in
        let of_other = timely id t hs in
        if str_eq id h.source_id then leb t now && of_source else of_other
  ]

  module _ (event_uuid : EventKey → Uuid) where
    unfoldable pub upsert_all :
        List (SourceHealth Float × Option Instant)
        → SourceCursorStore Float
        → SourceCursorStore Float
    upsert_all [] s = s
    upsert_all ((h, at) ∷ hs) s = upsert_all hs (upsert event_uuid h at s).1
