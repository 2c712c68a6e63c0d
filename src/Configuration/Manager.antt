-- ===== src/Configuration/Manager.antt =====
-- `ConfigurationManager` of src/sentinel_edge/configuration/manager.py. `put_bytes` is the digest that
-- the artifact store gives a bundle's canonical JSON, or its refusal. Clock readings and fresh
-- identities are arguments.
use sentinel_edge.Prelude.{
  ltb, if◌then◌else◌, any, Result, is_sha256, Dict, has_duplicate, ℕ, String, Bool, true, false,
  not, Option, none, some, List, [], ◌∷◌, ◌++◌, ok, err,
}
use sentinel_edge.Domain.Kinds.{Uuid, Instant}
use sentinel_edge.Runtime.Scheduler.{WorkloadSpec, is_tier_a}
use sentinel_edge.Configuration.{
  ConfigurationState, ConfigurationBundle, ConfigurationActivationRecord, ConfigurationError,
  validate_bundle, self_test_raised, Setting, absent, unreadable, number, invalid_bundle,
  invalid_model_hash, invalid_source_hash,
}
use sentinel_edge.Configuration.Store
use sentinel_edge.Configuration.Store.{ConfigurationStore}

abbrev has_invalid_hash : Dict String String → Bool
has_invalid_hash d = any (λ (b : String × String). not (is_sha256 b.1)) d

unfoldable pub validate : ConfigurationBundle → Result ConfigurationError ConfigurationBundle
validate b =
    if not (validate_bundle b)
    then err invalid_bundle
    else if has_invalid_hash b.model_hashes
    then err invalid_model_hash
    else if has_invalid_hash b.source_hashes
    then err invalid_source_hash
    else ok b

abbrev profile_ids : List WorkloadSpec → List String
profile_ids [] = []
profile_ids (w ∷ ws) = w.profile_id ∷ profile_ids ws

abbrev reason_if : Bool → String → List String
reason_if b s = if b then s ∷ [] else []

-- `int(settings.get("available_memory_mb", 1024))`
abbrev memory_of : Setting → Option ℕ
memory_of absent = some 1024
memory_of unreadable = none
memory_of (number n) = some n

-- The reasons of `_default_self_test` in the order of their texts.
abbrev self_test_reasons : ConfigurationBundle → (available_memory_mb : ℕ) → List String
self_test_reasons b available_memory_mb =
    reason_if (has_duplicate (profile_ids b.workloads)) "duplicate_profile_id"
    ++ reason_if (any (λ (w : WorkloadSpec). ltb w.deadline_ms w.estimated_cost_ms) b.workloads)
        "service_budget_exceeds_deadline"
    ++ reason_if (not (any (λ (w : WorkloadSpec). is_tier_a w.tier) b.workloads))
        "tier_a_workload_missing"
    ++ reason_if (any (λ (w : WorkloadSpec). ltb available_memory_mb w.memory_mb) b.workloads)
        "workload_exceeds_memory_envelope"

abbrev tested : List String → Bool × List String
tested [] = (true, [])
tested (r ∷ rs) = (false, r ∷ rs)

-- `_default_self_test`. The setting is read for each workload, so that one that `int` refuses raises
-- unless there is no workload.
unfoldable pub default_self_test :
    ConfigurationBundle → Result ConfigurationError (Bool × List String)
default_self_test b = elim (memory_of b.available_memory_mb) [
  | some n ↦ ok (tested (self_test_reasons b n))
  | none ↦ elim b.workloads [
    | [] ↦ ok (tested (self_test_reasons b 1024))
    | w ∷ ws ↦ err self_test_raised
  ]
]

-- The identity and the time of an activation record.
pub record Stamp : Type 0 where
  pub activation_id : Uuid
  pub activated_at : Instant

module _ (put_bytes : ConfigurationBundle → Result ConfigurationError String)
    (artifact_ref : String → String)
    (diff_sha256 : Option ConfigurationBundle → ConfigurationBundle → String)
    (self_test : ConfigurationBundle → Result ConfigurationError (Bool × List String)) where
  unfoldable pub stage :
      ConfigurationBundle
      → ConfigurationStore
      → Result ConfigurationError (ConfigurationBundle × String) × ConfigurationStore
  stage raw s = elim (validate raw) [
    | err x ↦ (err x, s)
    | ok b ↦ elim (put_bytes b) [
      | err x ↦ (err x, s)
      | ok sha256 ↦ elim (Store.stage b sha256 (artifact_ref sha256) s) [
        | err x ↦ (err x, s)
        | ok t ↦ (ok (b, sha256), t)
      ]
    ]
  ]

  abbrev pub activation :
      Stamp
      → ConfigurationBundle
      → (sha256 : String) → Option ConfigurationBundle
      → ConfigurationState
      → List String
      → ConfigurationActivationRecord
  activation stamp b sha256 previous state reasons = record {
    activation_id = stamp.activation_id;
    bundle_id = b.bundle_id;
    version = b.version;
    state = state;
    actor = b.actor;
    bundle_sha256 = sha256;
    diff_sha256 = diff_sha256 previous b;
    previous_bundle_id = elim previous as (λ _. Option String) [
      | none ↦ none
      | some p ↦ some p.bundle_id
    ];
    reason_codes = reasons;
    activated_at = stamp.activated_at;
  }

  abbrev pub Run : Type 0
  Run = Result ConfigurationError ConfigurationActivationRecord × ConfigurationStore

  -- The record with the store after a write, or the error with the store before it.
  abbrev pub written :
      ConfigurationActivationRecord
      → Result ConfigurationError ConfigurationStore
      → ConfigurationStore
      → Run
  written a (ok t) s = (ok a, t)
  written a (err x) s = (err x, s)

  -- The canary after the activation.
  unfoldable pub observe :
      Option (ConfigurationBundle → Bool × List String)
      → Stamp
      → ConfigurationBundle
      → (sha256 : String) → Option ConfigurationBundle
      → ConfigurationActivationRecord
      → ConfigurationStore
      → Run
  observe none stamp b sha256 previous activated s = (ok activated, s)
  observe (some canary) stamp b sha256 previous activated s =
      let (passed, reasons) = canary b in
      let a =
        activation stamp b sha256 previous ConfigurationState.rolled_back
          ("canary_failed" ∷ reasons) in
      if passed then (ok activated, s) else written a (Store.rollback b previous a s) s

  unfoldable pub activate :
      ConfigurationBundle
      → Option (ConfigurationBundle → Bool × List String)
      → (first_stamp second_stamp : Stamp) → ConfigurationStore
      → Run
  activate raw canary first_stamp second_stamp s =
      let previous = Store.active s in
      let (staged, t) = stage raw s in
      elim staged [
        | err x ↦ (err x, t)
        | ok pair ↦
            let b = pair.0 in
            let sha256 = pair.1 in
            elim (self_test b) [
              | err x ↦ (err x, t)
              | ok report ↦
                  let (passed, reasons) = report in
                  let rejected =
                    activation first_stamp b sha256 previous ConfigurationState.rejected
                      ("self_test_failed" ∷ reasons) in
                  let activated =
                    activation first_stamp b sha256 previous ConfigurationState.active
                      ("self_test_passed" ∷ []) in
                  if not passed
                  then written rejected (Store.insert_activation rejected t) t
                  else elim (Store.activate b activated t) [
                    | err x ↦ (err x, t)
                    | ok u ↦ observe canary second_stamp b sha256 previous activated u
                  ]
            ]
      ]
