-- ===== src/Runtime/Watchdog/Examples.antt =====
-- Tests of watchdog.py and the theorems at concrete inputs.
use sentinel_edge.Prelude.{
  length, keep, is_blank, nat_eq, string_eq, ℕ, suc, ◌≤◌, String, ◌≡◌, refl, ◌↔◌, true, false, none,
  List, [], ◌∷◌, arith, err,
}
use sentinel_edge.Runtime.Watchdog.{
  WorkerRecoveryPolicy, init, is_quarantined, failures_of, in_window, record_at, record_failure,
  hardware_watchdog_recovery, record_all, profile_id_required,
}
use sentinel_edge.Runtime.Watchdog.Laws.{
  IsValid, init-IsValid, record_all-IsValid, quarantine-permanent, record_at-allowed_iff,
}
use sentinel_edge.Runtime.Watchdog.CrashLoop.{crash_loop-quarantined, entries}

abbrev fresh : WorkerRecoveryPolicy
fresh = record { max_restarts = 2; window = 300; failures = []; quarantined = [] }

abbrev history : List (String × ℕ)
history = ("seismic", 10) ∷ ("flood", 20) ∷ ("seismic", 30) ∷ ("seismic", 40) ∷ []

after_history : is_quarantined (record_all fresh history) "seismic" ≡ true
unfolding record_all record_at
after_history = refl

flood_still_allowed : (record_at (record_all fresh history) "flood" 50).1.allowed ≡ true
unfolding record_all record_at
flood_still_allowed = refl

blank_profile : record_failure 7 fresh "  " none ≡ err profile_id_required
unfolding record_failure is_blank
blank_profile = refl

fresh-IsValid : IsValid fresh
fresh-IsValid k = ground arith

init-IsValid_example :
    IsValid (record { max_restarts = 3; window = 300000000; failures = []; quarantined = [] })
unfolding init
init-IsValid_example = init-IsValid 3 300 _ refl

record_all-IsValid_example : IsValid (record_all fresh history)
record_all-IsValid_example = record_all-IsValid fresh history fresh-IsValid

abbrev blocked : WorkerRecoveryPolicy
blocked = record fresh { quarantined = "seismic" ∷ [] }

quarantine-permanent_example :
    let q = record_all blocked history in
    ((record_at q "seismic" 60).1.allowed ≡ false)
    × ((record_at q "seismic" 60).0 ≡ q)
    × ((hardware_watchdog_recovery q "seismic").allowed ≡ false)
quarantine-permanent_example = quarantine-permanent blocked "seismic" history 60 refl

record_at-allowed_iff_example : ((record_at fresh "flood" 5).1.allowed ≡ true) ↔ (
    (is_quarantined fresh "flood" ≡ false)
    × (suc (length (keep (in_window fresh 5) (failures_of fresh "flood"))) ≤ 2))
record_at-allowed_iff_example = record_at-allowed_iff fresh "flood" 5

crash_loop-quarantined_example :
    is_quarantined (record_all fresh (entries "flood" (7 ∷ 8 ∷ 200 ∷ []))) "flood" ≡ true
crash_loop-quarantined_example =
    crash_loop-quarantined fresh "flood" 7 (7 ∷ 8 ∷ 200 ∷ []) fresh-IsValid (omega arith)
      (omega arith)
