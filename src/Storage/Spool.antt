-- ===== src/Storage/Spool.antt =====
-- `CriticalAnalysisSpool` of src/sentinel_edge/storage/spool.py: the bounded queue of analyses that
-- wait for the incident engine. Its two tables are lists in the order of their keys; a call that
-- raises inside its transaction leaves them alone. Instants are in microseconds.
pub mod Laws
pub mod Examples
use sentinel_edge.Prelude.{
  ltb, leb, ◌==◌, if◌then◌else◌, length, keep, first, Result, nat_eq, ℕ, ◌+◌, ◌*◌, String, Bool,
  true, false, not, ◌||◌, Option, none, some, List, [], ◌∷◌, ◌++◌, str_eq, ok, err,
}
use sentinel_edge.Domain.Kinds.{Uuid, Instant, HazardKind}
use sentinel_edge.Domain.Records.{AnalysisResult}

pub record PendingRow : Type 0 where
  pub analysis_id : Uuid
  pub hazard : HazardKind
  pub enqueued_at : Instant
  pub expires_at : Instant
  pub payload_json : String
  pub payload_bytes : ℕ

pub data SpoolStatus : Type 0 where
  rejected enqueued expired delivery_failed delivered : SpoolStatus

pub record SpoolEvent : Type 0 where
  pub analysis_id : Uuid
  pub status : SpoolStatus
  pub recorded_at : Instant
  pub reason : Option String
  pub payload_bytes : ℕ

pub record Spool : Type 0 where
  pub max_items : ℕ
  pub max_bytes : ℕ
  pub max_age_seconds : ℕ
  pub pending_analysis : List PendingRow
  pub spool_events : List SpoolEvent

pub data SpoolError : Type 0 where
  bounds_not_positive identity_conflict spool_exhausted : SpoolError

-- `__init__` on an empty database.
unfoldable pub create : ℕ → ℕ → ℕ → Result SpoolError Spool
create max_items max_bytes max_age_seconds =
    if max_items == 0 || max_bytes == 0 || max_age_seconds == 0
    then err bounds_not_positive
    else ok (record {
      max_items = max_items;
      max_bytes = max_bytes;
      max_age_seconds = max_age_seconds;
      pending_analysis = [];
      spool_events = [];
    })

abbrev pub total_bytes : List PendingRow → ℕ
total_bytes [] = 0
total_bytes (r ∷ rows) = r.payload_bytes + total_bytes rows

unfoldable pub counts : Spool → ℕ × ℕ
counts s = (length s.pending_analysis, total_bytes s.pending_analysis)

abbrev pub event : Uuid → SpoolStatus → Instant → Option String → ℕ → Spool → Spool
event id status at reason bytes s = record s {
  spool_events =
      s.spool_events
      ++ record {
        analysis_id = id;
        status = status;
        recorded_at = at;
        reason = reason;
        payload_bytes = bytes;
      }
        ∷ [];
}

-- `DELETE FROM pending_analysis WHERE analysis_id=?`
abbrev pub delete_row : Uuid → Spool → Spool
delete_row id s = record s {
  pending_analysis = keep (λ (r : PendingRow). not (r.analysis_id == id)) s.pending_analysis;
}

abbrev pub is_expired : Instant → PendingRow → Bool
is_expired now r = leb r.expires_at now

-- The JSON of an analysis, its reading and the length of its UTF-8 encoding.
module _ {Float : Type 0} (dump_json : AnalysisResult Float → String)
    (utf8_length : String → ℕ) where
  abbrev pub row_of : AnalysisResult Float → Instant → Spool → PendingRow
  row_of a at s = record {
    analysis_id = a.analysis_id;
    hazard = a.hazard;
    enqueued_at = at;
    expires_at = at + s.max_age_seconds * 1000000;
    payload_json = dump_json a;
    payload_bytes = utf8_length (dump_json a);
  }

  unfoldable pub enqueue : AnalysisResult Float → Instant → Spool → Result SpoolError Bool × Spool
  unfolding counts
  enqueue a at s =
      let json = dump_json a in
      let bytes = utf8_length json in
      let (items, total) = counts s in
      elim (first (λ (r : PendingRow). r.analysis_id == a.analysis_id) s.pending_analysis) [
        | some old ↦ (if str_eq old.payload_json json then ok false else err identity_conflict, s)
        | none ↦
            if ltb s.max_items (items + 1) || ltb s.max_bytes (total + bytes)
            then (
              err spool_exhausted,
              event a.analysis_id enqueued at none bytes
                  (event a.analysis_id rejected at (some "spool_exhausted") bytes s),
            )
            else (
              ok true,
              event a.analysis_id enqueued at none bytes
                  (record s { pending_analysis = s.pending_analysis ++ row_of a at s ∷ [] }),
            )
      ]

-- The handler takes its own state `H` along and returns, or raises an error of a named type.
module _ {Float H : Type 0} (load_json : String → AnalysisResult Float)
    (handler : AnalysisResult Float → H → Result String (Unit {0}) × H) where
  -- The loop over the rows that were read at its start.
  unfoldable pub drain_rows : List PendingRow → Instant → Spool → H → List Uuid × Spool × H
  drain_rows [] now s h = ([], s, h)
  drain_rows (r ∷ rows) now s h =
      let a = load_json r.payload_json in
      let (outcome, h') = handler a h in
      let done =
        event a.analysis_id delivered now none r.payload_bytes (delete_row a.analysis_id s) in
      let (ids, s', h'') = drain_rows rows now done h' in
      if is_expired now r
      then ([], event a.analysis_id expired now (some "maximum_age_exceeded") r.payload_bytes s, h)
      else elim outcome [
        | err x ↦ ([], event a.analysis_id delivery_failed now (some x) r.payload_bytes s, h')
        | ok _ ↦ (a.analysis_id ∷ ids, s', h'')
      ]

  unfoldable pub drain : Instant → Spool → H → List Uuid × Spool × H
  drain now s h = drain_rows s.pending_analysis now s h
