-- ===== src/Runtime/Watchdog.antt =====
-- src/sentinel_edge/runtime/watchdog.py: bounded restarts per profile, and quarantine. Times are
-- microseconds; a `datetime` is its instant with the mark whether it carries a timezone.
pub mod Laws
pub mod CrashLoop
mod Examples
use sentinel_edge.Prelude.{
  ltb, leb, if◌then◌else◌, or_default, length, keep, any, Result, is_blank, string_eq, Dict, lookup,
  insert, ℕ, ◌+◌, ◌*◌, String, Bool, true, false, not, ◌||◌, Option, List, [], ◌∷◌, ◌++◌, str_eq,
  ok, err,
}

pub data Error : Type 0 where
  bounds_not_positive profile_id_required failure_time_naive : Error

pub record Moment : Type 0 where
  pub micros : ℕ
  pub aware : Bool

pub record RecoveryDecision : Type 0 where
  pub mechanism : String
  pub allowed : Bool
  pub quarantined : Bool
  pub attempt : ℕ
  pub reason_code : String

pub record WorkerRecoveryPolicy : Type 0 where
  pub max_restarts : ℕ
  pub window : ℕ
  pub failures : Dict String (List ℕ)
  pub quarantined : List String

-- `__init__`
unfoldable pub init : ℕ → ℕ → Result Error WorkerRecoveryPolicy
init max_restarts window_seconds =
    if ltb max_restarts 1 || ltb window_seconds 1
    then err bounds_not_positive
    else ok (record {
      max_restarts = max_restarts;
      window = window_seconds * 1000000;
      failures = [];
      quarantined = [];
    })

abbrev pub is_quarantined : WorkerRecoveryPolicy → String → Bool
is_quarantined p profile_id = any (str_eq profile_id) p.quarantined

abbrev pub failures_of : WorkerRecoveryPolicy → String → List ℕ
failures_of p profile_id = or_default (lookup profile_id p.failures) []

-- `now - item <= self.window`
abbrev pub in_window : WorkerRecoveryPolicy → ℕ → ℕ → Bool
in_window p now item = leb now (item + p.window)

-- `record_failure` behind its argument checks.
unfoldable pub record_at :
    WorkerRecoveryPolicy → String → ℕ → WorkerRecoveryPolicy × RecoveryDecision
record_at p profile_id now =
    let recent = keep (in_window p now) (failures_of p profile_id) ++ now ∷ [] in
    let stored = record p { failures = insert profile_id recent p.failures } in
    if is_quarantined p profile_id
    then (
      p,
      record {
        mechanism = "process_restart";
        allowed = false;
        quarantined = true;
        attempt = p.max_restarts;
        reason_code = "crash_loop_quarantined";
      },
    )
    else if ltb p.max_restarts (length recent)
    then (
      record stored { quarantined = profile_id ∷ p.quarantined },
      record {
        mechanism = "process_restart";
        allowed = false;
        quarantined = true;
        attempt = length recent;
        reason_code = "crash_loop_quarantined";
      },
    )
    else (
      stored,
      record {
        mechanism = "process_restart";
        allowed = true;
        quarantined = false;
        attempt = length recent;
        reason_code = "process_restart_allowed";
      },
    )

-- `clock` is the system's time, which a call without `at` reads.
unfoldable pub record_failure :
    (clock : ℕ)
    → WorkerRecoveryPolicy
    → String
    → Option Moment
    → Result Error (WorkerRecoveryPolicy × RecoveryDecision)
unfolding record_at
record_failure clock p profile_id at =
    let now = or_default at (record { micros = clock; aware = true }) in
    if is_blank profile_id
    then err profile_id_required
    else if not now.aware
    then err failure_time_naive
    else ok (record_at p profile_id now.micros)

unfoldable pub hardware_watchdog_recovery : WorkerRecoveryPolicy → String → RecoveryDecision
hardware_watchdog_recovery p profile_id =
    if is_quarantined p profile_id
    then record {
      mechanism = "hardware_watchdog";
      allowed = false;
      quarantined = true;
      attempt = length (failures_of p profile_id);
      reason_code = "crash_loop_quarantined";
    }
    else record {
      mechanism = "hardware_watchdog";
      allowed = true;
      quarantined = false;
      attempt = length (failures_of p profile_id);
      reason_code = "hardware_watchdog_recovery_distinct";
    }

-- The failures of several profiles, in the order in which they are recorded.
unfoldable pub record_all : WorkerRecoveryPolicy → List (String × ℕ) → WorkerRecoveryPolicy
record_all p [] = p
record_all p ((profile_id, now) ∷ es) = record_all (record_at p profile_id now).0 es
