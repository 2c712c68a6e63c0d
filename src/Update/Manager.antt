-- ===== src/Update/Manager.antt =====
-- `OfflineUpdateManager` of src/sentinel_edge/update/manager.py.
use sentinel_edge.Prelude.{
  leb, ◌==◌, if◌then◌else◌, Result, text_append, nat_eq, string_eq, lookup, insert, erase, String,
  Bool, true, false, not, ◌&&◌, Option, none, some, List, [], ◌∷◌, str_eq, ok, err,
}
use Prim.Native.Char.{code}
use sentinel_edge.Domain.Kinds.{Instant}
use sentinel_edge.Update.{
  OfflineUpdateMetadata, OfflineUpdateTarget, OfflineUpdateVerification, UpdateBundleState,
}
use sentinel_edge.Update.Verification.{
  target_mismatch, immutable_mode, rollback_or_replay, staged_mismatch, not_field_lab, outside_root,
  not_staged, invalid_metadata, Tools, UpdateError, Tombstones, Tree, Updates, OfflineUpdateManager,
  current_update_version, load_metadata, matches, verify, verify_tombstone_requirement,
  metadata_name, is_immutable, is_field_lab,
}

-- `staged_path` after `resolve`: outside of the staging root, the root, a directory in it, or a
-- directory at a path below one of those.
pub data StagedPath : Type 0 where
  outside root : StagedPath
  bundle : (name : String) → StagedPath
  nested : (name : String) → (path : String) → StagedPath

-- The rest of a text after a prefix.
unfoldable pub without_prefix : (prefix : String) → String → Option String
without_prefix String.[] s = some s
without_prefix (String.◌∷◌ c p) String.[] = none
without_prefix (String.◌∷◌ c p) (String.◌∷◌ d s) =
    let rest = without_prefix p s in if code c == code d then rest else none

module _ (tl : Tools) where
  open tl use {Bytes, sha256, canonical_json}

  -- The name of the directory of a bundle.
  abbrev pub directory : OfflineUpdateMetadata → String
  directory m = text_append m.bundle_id (text_append "-" (tl.int_text m.version))

  abbrev pub verification :
      OfflineUpdateMetadata
      → UpdateBundleState
      → (now : Instant) → (metadata_sha256 : String) → List String
      → OfflineUpdateVerification
  verification m state now metadata_sha256 reasons = record {
    bundle_id = m.bundle_id;
    version = m.version;
    state = state;
    verified_at = now;
    metadata_sha256 = metadata_sha256;
    signer_key_id = m.root_key_id;
    reason_codes = reasons;
  }

  -- The files of the targets, read from the archive and written to a directory.
  unfoldable pub extract :
      Tree tl → List OfflineUpdateTarget → Tree tl → Result UpdateError (Tree tl)
  extract t [] to = ok to
  extract t (g ∷ gs) to = elim (lookup g.path t) [
    | none ↦ err target_mismatch
    | some data_ ↦
        let rest = extract t gs (insert g.path data_ to) in
        if not (str_eq (sha256 data_) g.sha256) then err target_mismatch else rest
  ]

  abbrev pub Run : Type 0
  Run = Result UpdateError OfflineUpdateVerification × Updates tl

  -- An earlier directory of the same bundle is removed before the targets are written.
  unfoldable pub stage :
      OfflineUpdateManager tl → Tree tl → Tombstones → (now : Instant) → Updates tl → Run
  stage o t tombstones now u =
      if is_immutable o.mode
      then (err immutable_mode, u)
      else elim (verify tl o t tombstones now u) [
        | err x ↦ (err x, u)
        | ok m ↦ elim (extract t m.targets []) [
          | err x ↦ (err x, record u { staged = erase (directory m) u.staged })
          | ok files ↦ (
            ok (
                verification m UpdateBundleState.staged now (sha256 (canonical_json m)) (
                  "ed25519_signature_valid"
                  ∷ "expiry_valid"
                  ∷ "rollback_check_passed"
                  ∷ "targets_verified"
                  ∷ text_append "tombstone_position:" (tl.int_text tombstones.position)
                  ∷ "tombstone_requirement_satisfied"
                  ∷ [])),
            record u {
              staged =
                  insert (directory m) (insert metadata_name (canonical_json m) files) u.staged;
            },
          )
        ]
      ]

  unfoldable pub all_match : Tree tl → List OfflineUpdateTarget → Bool
  all_match t [] = true
  all_match t (g ∷ gs) = matches tl t g && all_match t gs

  -- The directory is copied, and the pointer is replaced.
  abbrev pub committed :
      OfflineUpdateMetadata
      → Tree tl
      → (metadata_sha256 : String) → (now : Instant) → Updates tl
      → Updates tl
  committed m t metadata_sha256 now u = record u {
    activated = insert (directory m) t u.activated;
    pointer = some (record {
      bundle_id = m.bundle_id;
      version = m.version;
      path = directory m;
      metadata_sha256 = metadata_sha256;
      activated_at = now;
    });
  }

  -- The part of `activate` that follows the reading of the staged directory.
  unfoldable pub activate_tree :
      (self_test : Tree tl → Bool)
      → OfflineUpdateMetadata
      → Tree tl
      → (metadata : Bytes) → Tombstones
      → (now : Instant) → Updates tl
      → Run
  activate_tree self_test m t metadata tombstones now u =
      elim (verify_tombstone_requirement m tombstones) [
        | err x ↦ (err x, u)
        | ok _ ↦
            if leb m.version (current_update_version tl u)
            then (err rollback_or_replay, u)
            else if not (all_match t m.targets)
            then (err staged_mismatch, u)
            else if not (self_test t)
            then (
              ok (
                  verification m UpdateBundleState.rolled_back now (sha256 metadata)
                    ("self_test_failed" ∷ "previous_active_pointer_preserved" ∷ [])),
              u,
            )
            else (
              ok (
                  verification m UpdateBundleState.activated now (sha256 metadata)
                    ("self_test_passed" ∷ "activation_pointer_committed" ∷ [])),
              committed m t (sha256 metadata) now u,
            )
      ]

  -- The files of a directory below a path in it.
  unfoldable pub below : (prefix : String) → Tree tl → Tree tl
  below prefix [] = []
  below prefix ((name, content) ∷ t) =
      let rest = below prefix t in
      elim (without_prefix prefix name) [ none ↦ rest | some inner ↦ (inner, content) ∷ rest ]

  -- The directory that a path names. The staging root itself holds no files.
  unfoldable pub staged_tree : StagedPath → Updates tl → Option (Tree tl)
  staged_tree outside u = none
  staged_tree root u = some []
  staged_tree (bundle name) u = lookup name u.staged
  staged_tree (nested name path) u = elim (lookup name u.staged) [
    | none ↦ none
    | some t ↦ some (below (text_append path "/") t)
  ]

  abbrev pub is_outside : StagedPath → Bool
  is_outside outside = true
  is_outside _ = false

  unfoldable pub activate :
      OfflineUpdateManager tl
      → (staged_path : StagedPath) → (self_test : Tree tl → Bool) → Tombstones
      → (now : Instant) → Updates tl
      → Run
  activate o staged_path self_test tombstones now u =
      if not (is_field_lab o.mode)
      then (err not_field_lab, u)
      else if is_outside staged_path
      then (err outside_root, u)
      else elim (staged_tree staged_path u) [
        | none ↦ (err not_staged, u)
        | some t ↦ elim (lookup metadata_name t) [
          | none ↦ (err not_staged, u)
          | some metadata ↦ elim (load_metadata tl metadata) [
            | none ↦ (err invalid_metadata, u)
            | some m ↦ activate_tree self_test m t metadata tombstones now u
          ]
        ]
      ]
