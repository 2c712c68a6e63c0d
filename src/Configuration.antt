-- ===== src/Configuration.antt =====
-- Configuration bundles: the manager of src/sentinel_edge/configuration/manager.py over
-- `ConfigurationStore` of src/sentinel_edge/storage/sqlite_store.py.
pub mod Store
pub mod Manager
pub mod Safety
pub mod Activation
pub mod Outcomes
pub mod Examples
use sentinel_edge.Prelude.{
  is_blank, text_append, Dict, has_duplicate, ℕ, String, Bool, true, false, not, ◌&&◌, ◌||◌, Option,
  List, [], ◌∷◌, str_eq,
}
use sentinel_edge.Domain.Kinds.{Uuid, Instant}
use sentinel_edge.Runtime.Scheduler.{WorkloadSpec}

pub data ConfigurationState : Type 0 where
  staged active last_known_good rejected rolled_back : ConfigurationState

-- A setting that is read by `int`: absent, a natural number, or a value that `int` refuses.
pub data Setting : Type 0 where
  absent unreadable : Setting
  number : ℕ → Setting

-- Of the settings only `available_memory_mb` is read.
pub record ConfigurationBundle : Type 0 where
  pub schema_version : String
  pub bundle_id : String
  pub version : String
  pub actor : String
  pub workloads : List WorkloadSpec
  pub available_memory_mb : Setting
  pub model_hashes : Dict String String
  pub source_hashes : Dict String String
  pub created_at : Instant

pub record ConfigurationActivationRecord : Type 0 where
  pub activation_id : Uuid
  pub bundle_id : String
  pub version : String
  pub state : ConfigurationState
  pub actor : String
  pub bundle_sha256 : String
  pub diff_sha256 : String
  pub previous_bundle_id : Option String
  pub reason_codes : List String
  pub activated_at : Instant

pub data ConfigurationError : Type 0 where
  invalid_bundle invalid_model_hash invalid_source_hash identity_immutable : ConfigurationError
  duplicate_activation artifact_refused self_test_raised : ConfigurationError

-- The text `{bundle_id}@{version}`.
unfoldable pub bundle_key : String → String → String
bundle_key bundle_id version = text_append bundle_id (text_append "@" version)

abbrev pub key : ConfigurationBundle → String
key b = bundle_key b.bundle_id b.version

abbrev workload_ids : List WorkloadSpec → List String
workload_ids [] = []
workload_ids (w ∷ ws) = w.workload_id ∷ workload_ids ws

abbrev has_workloads : List WorkloadSpec → Bool
has_workloads [] = false
has_workloads _ = true

-- `validate_bundle`
unfoldable pub validate_bundle : ConfigurationBundle → Bool
validate_bundle b =
    str_eq b.schema_version "1.0.0"
    && not (is_blank b.bundle_id || is_blank b.version || is_blank b.actor)
    && not (has_duplicate (workload_ids b.workloads))
    && has_workloads b.workloads
