-- ===== src/Storage/Spool/Examples.antt =====
-- A spool of two rows, with tests of the spool and its theorems at concrete inputs.
use sentinel_edge.Prelude.{
  ◌==◌, if◌then◌else◌, Result, nat_eq, ℕ, ◌+◌, String, ◌≡◌, refl, ◌≢◌, ◌⊎◌, Bool, true, false, none,
  [], ◌∷◌, ◌++◌, map, arith, str_eq, ok, err,
}
use sentinel_edge.Domain.Kinds.{HazardKind, IncidentState, CoverageState, SourceMode, Uuid}
use sentinel_edge.Domain.Records.{AnalysisResult}
use sentinel_edge.Storage.Spool.{
  Spool, SpoolError, SpoolEvent, spool_exhausted, rejected, enqueued, enqueue, drain, drain_rows,
  counts, row_of,
}
use sentinel_edge.Storage.Spool.Laws.{
  IsBounded, IsDrained, enqueue-IsBounded, enqueue-pending, drain-IsDrained,
}

-- Analyses whose features are all that varies, in a text that spells it out.
abbrev analysis : Uuid → AnalysisResult ℕ
analysis id = record {
  analysis_id = id;
  observation_id = 1;
  correlation_id = 1;
  boot_id = "boot-1";
  source_mode = SourceMode.live;
  hazard = HazardKind.flood;
  score = 50;
  state_hint = IncidentState.watch;
  features = [];
  coverage = CoverageState.sufficient;
  abstained = false;
  reason_codes = [];
  model_profile_id = "m1";
  source_lineage = "sensor";
  config_hashes = [];
  incident_id_hint = none;
  produced_at = 5;
  event_time = none;
}

-- A text and its reading on two analyses.
abbrev dump : AnalysisResult ℕ → String
dump a = if a.analysis_id == 7 then "seven" else "eight"

abbrev load : String → AnalysisResult ℕ
load s = if str_eq s "seven" then analysis 7 else analysis 8

abbrev size : String → ℕ
size s = 5

abbrev empty_spool : Spool
empty_spool = record {
  max_items = 2;
  max_bytes = 20;
  max_age_seconds = 900;
  pending_analysis = [];
  spool_events = [];
}

abbrev with_seven : Spool
with_seven = (enqueue dump size (analysis 7) 100 empty_spool).1

abbrev with_both : Spool
with_both = (enqueue dump size (analysis 8) 200 with_seven).1

empty-IsBounded : IsBounded load empty_spool
empty-IsBounded = record { items = omega arith; bytes = omega arith; distinct = tt; faithful = tt }

seven-IsBounded : IsBounded load with_seven
seven-IsBounded = enqueue-IsBounded load dump size (analysis 7) 100 empty_spool refl empty-IsBounded

enqueue-IsBounded_example : IsBounded load with_both
enqueue-IsBounded_example =
    enqueue-IsBounded load dump size (analysis 8) 200 with_seven refl seven-IsBounded

abbrev accepted : Result SpoolError Bool
accepted = ok true

eight-enqueued : enqueue dump size (analysis 8) 200 with_seven ≡ (ok true, with_both)
unfolding enqueue counts
eight-enqueued = refl

enqueue-pending_example :
    ((accepted ≡ ok true)
      × (with_both.pending_analysis
          ≡ with_seven.pending_analysis ++ row_of dump size (analysis 8) 200 with_seven ∷ []))
    ⊎ ((accepted ≢ ok true) × (with_both.pending_analysis ≡ with_seven.pending_analysis))
enqueue-pending_example =
    enqueue-pending dump size (analysis 8) 200 with_seven with_both accepted eight-enqueued

-- An engine that takes every analysis but one, and counts those it takes.
abbrev handler : AnalysisResult ℕ → ℕ → Result String (Unit {0}) × ℕ
handler a n = if a.analysis_id == 8 then (err "ValueError", n) else (ok tt, n + 1)

drained_to_the_failure : (drain load handler 300 with_both 0).0 ≡ 7 ∷ []
unfolding enqueue counts drain drain_rows
drained_to_the_failure = refl

drain-IsDrained_example :
    IsDrained load handler 300 with_both.pending_analysis 0
      (drain load handler 300 with_both 0).0
      (drain load handler 300 with_both 0).1
      (drain load handler 300 with_both 0).2
drain-IsDrained_example = drain-IsDrained load handler 300 with_both 0 enqueue-IsBounded_example

-- A full spool refuses a row, and its log then says that the row was rejected and enqueued.
abbrev full : Spool
full = record empty_spool { max_items = 0 }

rejected_and_enqueued :
    ((enqueue dump size (analysis 7) 100 full).0 ≡ err spool_exhausted)
    × (map (λ (e : SpoolEvent). e.status) (enqueue dump size (analysis 7) 100 full).1.spool_events
        ≡ rejected ∷ enqueued ∷ [])
unfolding enqueue counts
rejected_and_enqueued = (refl, refl)
