-- ===== src/Configuration/Examples.antt =====
-- Two versions of a bundle, with tests of the manager and its theorem at concrete inputs.
use sentinel_edge.Prelude.{
  Result, is_blank, text_append, nat_eq, has_duplicate, ℕ, ◌+◌, String, ◌≡◌, refl, Bool, false,
  Option, none, some, List, [], ◌∷◌, map, ok,
}
use sentinel_edge.Domain.Kinds.{HazardKind, CriticalityTier}
use sentinel_edge.Runtime.Scheduler.{WorkloadSpec}
use sentinel_edge.Configuration.{
  absent, ConfigurationState, ConfigurationBundle, ConfigurationActivationRecord,
  ConfigurationError, bundle_key, validate_bundle,
}
use sentinel_edge.Configuration.Store
use sentinel_edge.Configuration.Store.{
  BundleRow, ConfigurationStore, empty_store, set_bundle_state, insert_activation, bundle_for_key,
}
use sentinel_edge.Configuration.Manager
use sentinel_edge.Configuration.Manager.{Stamp, validate, observe, default_self_test, activation}
use sentinel_edge.Configuration.Outcomes.{IsOutcome}

abbrev siren : WorkloadSpec
siren = record {
  workload_id = "siren";
  hazard = HazardKind.flood;
  tier = CriticalityTier.a_immediate;
  period_ms = 1000;
  deadline_ms = 500;
  max_deferral_ms = 2000;
  estimated_cost_ms = 10;
  memory_mb = 100;
  profile_id = "p";
  forced_scan_ms = none;
}

abbrev bundle : String → ConfigurationBundle
bundle version = record {
  schema_version = "1.0.0";
  bundle_id = "field";
  version = version;
  actor = "operator";
  workloads = siren ∷ [];
  available_memory_mb = absent;
  model_hashes = [];
  source_hashes = [];
  created_at = 1;
}

abbrev put_bytes : ConfigurationBundle → Result ConfigurationError String
put_bytes b = ok b.version

abbrev artifact_ref : String → String
artifact_ref s = s

abbrev diff_sha256 : Option ConfigurationBundle → ConfigurationBundle → String
diff_sha256 previous b = "diff"

abbrev stamp : ℕ → Stamp
stamp n = record { activation_id = n; activated_at = n }

abbrev failing : Option (ConfigurationBundle → Bool × List String)
failing = some (λ b. (false, []))

abbrev run :
    String
    → Option (ConfigurationBundle → Bool × List String)
    → ℕ
    → ConfigurationStore
    → Result ConfigurationError ConfigurationActivationRecord × ConfigurationStore
run version canary n s =
    Manager.activate put_bytes artifact_ref diff_sha256 default_self_test (bundle version) canary
      (stamp n) (stamp (n + 1)) s

abbrev first_active : ConfigurationStore
first_active = (run "1" none 10 empty_store).1

abbrev first_record : ConfigurationActivationRecord
first_record =
    activation put_bytes artifact_ref diff_sha256 default_self_test (stamp 10) (bundle "1") "1" none
      ConfigurationState.active ("self_test_passed" ∷ [])

abbrev Outcome :
    (raw : ConfigurationBundle)
    → ConfigurationStore
    → ConfigurationStore
    → ConfigurationActivationRecord
    → Type 0
Outcome raw s w r =
    (b : ConfigurationBundle) × (sha256 : String) × (validate raw ≡ ok b)
    × (put_bytes b ≡ ok sha256)
    × IsOutcome b sha256 s w r

abbrev after_canary : ConfigurationStore
after_canary = (run "2" failing 20 first_active).1

abbrev second_record : ConfigurationActivationRecord
second_record =
    activation put_bytes artifact_ref diff_sha256 default_self_test (stamp 21) (bundle "2") "2"
      (some (bundle "1")) ConfigurationState.rolled_back ("canary_failed" ∷ [])

-- When the active bundle is activated again and its canary fails, it stays in force, and its row says
-- that it was rolled back.
still_in_force :
    ((run "1" failing 30 first_active).1.active_bundle_key ≡ some "field@1")
    × (map (λ (r : BundleRow). r.state) (run "1" failing 30 first_active).1.configuration_bundles
        ≡ ConfigurationState.rolled_back ∷ [])
unfolding Manager.activate Manager.stage validate validate_bundle has_duplicate is_blank
    default_self_test Store.stage Store.activate Store.active Store.rollback bundle_for_key
    insert_activation observe set_bundle_state bundle_key text_append
still_in_force = (refl, refl)
