-- ===== src/Configuration/Outcomes.antt =====
-- The outcome of `activate` (src/sentinel_edge/configuration/manager.py).
use sentinel_edge.Prelude.{nat_eq, String, ◌≡◌, ◌≢◌, ◌⊎◌, some}
use sentinel_edge.Configuration.{
  ConfigurationState, ConfigurationBundle, ConfigurationActivationRecord, key,
}
use sentinel_edge.Configuration.Store
use sentinel_edge.Configuration.Store.{row_for, ConfigurationStore}
use sentinel_edge.Configuration.Manager
use sentinel_edge.Configuration.Safety.{content_of, IsValid}

-- A record is about a bundle and its digest.
pub record IsAbout (b : ConfigurationBundle) (sha256 : String) (r : ConfigurationActivationRecord)
    : Type 0 where
  pub bundle_id : r.bundle_id ≡ b.bundle_id
  pub version : r.version ≡ b.version
  pub digest : r.bundle_sha256 ≡ sha256

-- The bundle in force stands under the key of another and has a digest.
pub record IsInForce (b : ConfigurationBundle) (sha256 : String) (s : ConfigurationStore)
    : Type 0 where
  pub bundle : ConfigurationBundle
  pub active : Store.active s ≡ some bundle
  pub named : key bundle ≡ key b
  pub digest : content_of (row_for (key b) s.configuration_bundles) ≡ some (bundle, sha256)

-- The store is valid, and either the record's bundle was activated and is in force, or it was rejected
-- or rolled back and the bundle that was in force before still is.
pub record IsOutcome (b : ConfigurationBundle) (sha256 : String) (before after : ConfigurationStore)
    (r : ConfigurationActivationRecord) : Type 0 where
  pub valid : IsValid after
  pub about : IsAbout b sha256 r
  pub in_force :
      ((r.state ≡ ConfigurationState.active) × IsInForce b sha256 after)
      ⊎ ((r.state ≢ ConfigurationState.active) × (Store.active after ≡ Store.active before))
