-- ===== src/Update/Examples.antt =====
-- Updates that are staged and activated, with the theorems at concrete inputs.
use sentinel_edge.Prelude.{
  ◌==◌, if◌then◌else◌, text_append, text_length, is_empty, strip_left, strip_right, strip, nat_eq,
  string_eq, has_duplicate, ℕ, ◌≤◌, String, ◌≡◌, refl, true, not, ◌&&◌, none, some, List, [], ◌∷◌,
  arith, str_eq, eq_iff,
}
use sentinel_edge.Domain.Kinds.{RuntimeMode}
use sentinel_edge.Update.{
  OfflineUpdateTarget, OfflineUpdateMetadata, safe_relative_target_path, split, with_slashes,
  starts_with, version_tuple, all_some, tuple_lt, validate_update_metadata, safe_target,
  is_protected,
}
use sentinel_edge.Update.Verification.{
  Tools, Tombstones, Updates, Tree, OfflineUpdateManager, current_update_version, load_metadata,
  verify, check_metadata, check_targets, is_incompatible, verify_tombstone_requirement,
}
use sentinel_edge.Update.Manager.{
  StagedPath, staged_tree, below, without_prefix, stage, activate, activate_tree, extract,
  all_match,
}
use sentinel_edge.Update.Soundness.{IsSound}
use sentinel_edge.Update.Activation.{Operation, run, run_all, run_all-IsSound}

safe_path : safe_relative_target_path " lib\\core.py " ≡ some "lib/core.py"
unfolding safe_relative_target_path with_slashes strip strip_left strip_right is_empty starts_with
    split text_append
safe_path = refl

escaping_path : safe_relative_target_path "lib/../../etc" ≡ none
unfolding safe_relative_target_path with_slashes strip strip_left strip_right is_empty starts_with
    split
escaping_path = refl

abbrev with_targets : String → ℕ → List OfflineUpdateTarget → OfflineUpdateMetadata
with_targets name version targets = record {
  schema_version = "1.0.0";
  bundle_id = name;
  version = version;
  created_at = 100;
  expires_at = 900;
  compatible_project = "sentinel-edge";
  compatible_min_version = "a.b";
  compatible_max_version = "aa";
  targets = targets;
  root_key_id = "root";
  minimum_tombstone_authority_position = 0;
  required_tombstone_journal_sha256 = none;
}

abbrev target : String → ℕ → String → OfflineUpdateTarget
target path byte_length digest = record { path = path; byte_length = byte_length; sha256 = digest }

abbrev metadata : String → ℕ → String → OfflineUpdateMetadata
metadata name version digest = with_targets name version (target "lib/core.py" 4 digest ∷ [])

-- Digests and JSON that keep apart the bundles of the examples. The metadata of the bundle gamma
-- carries no signature; it is a file of the bundle docs.
abbrev tools : Tools
tools = record {
  Bytes = String;
  byte_length = text_length;
  sha256 = λ b. b;
  b64decode = λ b. some b;
  is_signature = λ signature b. str_eq signature "signature" && not (str_eq b "gamma");
  key_id = "root";
  bytes_eq = str_eq;
  bytes_eq_iff = eq_iff;
  canonical_json = λ m. m.bundle_id;
  from_json = λ b.
      if str_eq b "alpha"
      then some (metadata "alpha" 1 "code")
      else if str_eq b "beta"
      then some (metadata "beta" 2 "more")
      else if str_eq b "gamma"
      then some (metadata "gamma" 2 "evil")
      else if str_eq b "docs"
      then some (
          with_targets "docs" 1
            (target "old/metadata.json" 5 "gamma" ∷ target "old/lib/core.py" 4 "evil" ∷ []))
      else none;
  int = λ s. some (text_length s);
  int_text = λ n. if n == 1 then "1" else "2";
  lower = λ s. s;
}

abbrev archive : String → String → Tree tools
archive name content =
    ("metadata.json", name) ∷ ("metadata.ed25519", "signature") ∷ ("lib/core.py", content) ∷ []

abbrev manager : OfflineUpdateManager tools
manager = record { current_project_version = "a.b.c"; mode = RuntimeMode.field_lab }

abbrev no_tombstones : Tombstones
no_tombstones = record { position = 0; journal_sha256 = "" }

abbrev fresh : Updates tools
fresh = record { staged = []; activated = []; pointer = none }

abbrev staging : String → String → Operation tools
staging name content = Operation.staging (archive name content) no_tombstones 200

abbrev activating : String → Operation tools
activating path = Operation.activating path (λ t. true) no_tombstones 300

-- The last activation would go back to the first bundle.
abbrev history : List (Operation tools)
history =
    staging "alpha" "code"
    ∷ activating "alpha-1"
    ∷ staging "beta" "more"
    ∷ activating "beta-2"
    ∷ activating "alpha-1"
    ∷ []

history-version : current_update_version tools (run_all tools manager history fresh) ≡ 2
unfolding run_all run stage activate staged_tree activate_tree extract all_match
    current_update_version load_metadata verify check_metadata check_targets is_incompatible
    verify_tombstone_requirement validate_update_metadata safe_target safe_relative_target_path
    with_slashes strip strip_left strip_right is_empty starts_with split version_tuple all_some
    tuple_lt has_duplicate is_protected text_length text_append
history-version = refl

fresh-IsSound : IsSound tools fresh
fresh-IsSound = record {
  staged_signed = λ name t h. absurd ground arith;
  in_force = λ p h. absurd ground arith;
}

run_all-IsSound_example :
    IsSound tools (run_all tools manager history fresh)
    × (current_update_version tools fresh
        ≤ current_update_version tools (run_all tools manager history fresh))
run_all-IsSound_example = run_all-IsSound tools manager history fresh fresh-IsSound

abbrev docs_staged : Updates tools
docs_staged =
    (stage tools manager
      (("metadata.json", "docs")
        ∷ ("metadata.ed25519", "signature")
        ∷ ("old/metadata.json", "gamma")
        ∷ ("old/lib/core.py", "evil")
        ∷ [])
      no_tombstones 200 fresh).1

-- A directory inside of a staged bundle is activated by metadata that nobody signed as such.
nested-activated :
    current_update_version tools
      (activate tools manager
        (StagedPath.nested "docs-1" "old")
        (λ t. true)
        no_tombstones
        300
        docs_staged).1
    ≡ 2
unfolding stage activate staged_tree below without_prefix activate_tree extract all_match
    current_update_version load_metadata verify check_metadata check_targets is_incompatible
    verify_tombstone_requirement validate_update_metadata safe_target safe_relative_target_path
    with_slashes strip strip_left strip_right is_empty starts_with split version_tuple all_some
    tuple_lt has_duplicate is_protected text_length text_append
nested-activated = refl
