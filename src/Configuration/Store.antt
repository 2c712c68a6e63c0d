-- ===== src/Configuration/Store.antt =====
-- `ConfigurationStore` of src/sentinel_edge/storage/sqlite_store.py. A call that raises inside its
-- transaction changes nothing.
use sentinel_edge.Prelude.{
  ◌==◌, if◌then◌else◌, first, any, Result, nat_eq, String, Bool, false, not, ◌&&◌, Option, none,
  some, List, [], ◌∷◌, ◌++◌, str_eq, ok, err,
}
use sentinel_edge.Configuration.{
  ConfigurationState, ConfigurationBundle, ConfigurationActivationRecord, ConfigurationError, key,
  bundle_key, identity_immutable, duplicate_activation,
}

pub record BundleRow : Type 0 where
  pub bundle_key : String
  pub state : ConfigurationState
  pub bundle_sha256 : String
  pub artifact_ref : String
  pub bundle : ConfigurationBundle

pub record ConfigurationStore : Type 0 where
  pub configuration_bundles : List BundleRow
  pub configuration_activations : List ConfigurationActivationRecord
  pub active_bundle_key : Option String
  pub last_known_good_bundle_key : Option String

abbrev pub empty_store : ConfigurationStore
empty_store = record {
  configuration_bundles = [];
  configuration_activations = [];
  active_bundle_key = none;
  last_known_good_bundle_key = none;
}

abbrev pub row_for : String → List BundleRow → Option BundleRow
row_for k rows = first (λ (r : BundleRow). str_eq r.bundle_key k) rows

unfoldable pub set_bundle_state : String → ConfigurationState → List BundleRow → List BundleRow
set_bundle_state k state [] = []
set_bundle_state k state (r ∷ rows) =
    (if str_eq r.bundle_key k then record r { state = state } else r)
    ∷ set_bundle_state k state rows

unfoldable pub stage :
    ConfigurationBundle
    → (bundle_sha256 artifact_ref : String) → ConfigurationStore
    → Result ConfigurationError ConfigurationStore
stage b bundle_sha256 artifact_ref s = elim (row_for (key b) s.configuration_bundles) [
  | some r ↦ if str_eq r.bundle_sha256 bundle_sha256 then ok s else err identity_immutable
  | none ↦ ok (record s {
    configuration_bundles =
        s.configuration_bundles
        ++ record {
          bundle_key = key b;
          state = ConfigurationState.staged;
          bundle_sha256 = bundle_sha256;
          artifact_ref = artifact_ref;
          bundle = b;
        }
          ∷ [];
  })
]

-- `_bundle_for_key`
unfoldable pub bundle_for_key : Option String → ConfigurationStore → Option ConfigurationBundle
bundle_for_key none s = none
bundle_for_key (some k) s = elim (row_for k s.configuration_bundles) [
  | none ↦ none
  | some r ↦ some r.bundle
]

unfoldable pub active : ConfigurationStore → Option ConfigurationBundle
unfolding bundle_for_key
active s = bundle_for_key s.active_bundle_key s

unfoldable pub last_known_good : ConfigurationStore → Option ConfigurationBundle
unfolding bundle_for_key
last_known_good s = bundle_for_key s.last_known_good_bundle_key s

-- `_insert_activation`, and `record`, which is the same in a transaction.
unfoldable pub insert_activation :
    ConfigurationActivationRecord
    → ConfigurationStore
    → Result ConfigurationError ConfigurationStore
insert_activation a s =
    if any (λ (o : ConfigurationActivationRecord). o.activation_id == a.activation_id)
      s.configuration_activations
    then err duplicate_activation
    else ok (record s {
      configuration_activations = s.configuration_activations ++ a ∷ [];
      configuration_bundles =
          set_bundle_state (bundle_key a.bundle_id a.version) a.state s.configuration_bundles;
    })

abbrev pub is_key : Option String → String → Bool
is_key none k = false
is_key (some p) k = str_eq p k

-- The rows with the previous active bundle, if it is another one, as the last known good.
abbrev pub demoted : Option String → String → List BundleRow → List BundleRow
demoted none k rows = rows
demoted (some p) k rows =
    if not (str_eq p "") && not (str_eq p k)
    then set_bundle_state p ConfigurationState.last_known_good rows
    else rows

unfoldable pub activate :
    ConfigurationBundle
    → ConfigurationActivationRecord
    → ConfigurationStore
    → Result ConfigurationError ConfigurationStore
activate b a s =
    let previous = s.active_bundle_key in
    elim (insert_activation a
      (record s { configuration_bundles = demoted previous (key b) s.configuration_bundles })) [
        | err x ↦ err x
        | ok t ↦ ok (record t {
          active_bundle_key = some (key b);
          last_known_good_bundle_key =
              if is_key previous (key b) then s.last_known_good_bundle_key else previous;
        })
      ]

-- The rows of the previous bundle, if there is one, as active, and those of the candidate as rolled back.
abbrev pub restored : String → Option String → List BundleRow → List BundleRow
restored candidate none rows = set_bundle_state candidate ConfigurationState.rolled_back rows
restored candidate (some p) rows =
    set_bundle_state candidate ConfigurationState.rolled_back
      (if str_eq p "" then rows else set_bundle_state p ConfigurationState.active rows)

unfoldable pub rollback :
    (candidate : ConfigurationBundle)
    → (previous : Option ConfigurationBundle) → ConfigurationActivationRecord
    → ConfigurationStore
    → Result ConfigurationError ConfigurationStore
rollback candidate previous a s =
    let previous_key = elim previous as (λ _. Option String) [
      | none ↦ none
      | some p ↦ some (key p)
    ] in
    elim (insert_activation a s) [
      | err x ↦ err x
      | ok t ↦ ok (record t {
        configuration_bundles = restored (key candidate) previous_key t.configuration_bundles;
        active_bundle_key = previous_key;
        last_known_good_bundle_key = previous_key;
      })
    ]
