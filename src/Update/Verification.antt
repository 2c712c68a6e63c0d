-- ===== src/Update/Verification.antt =====
-- The checks of `OfflineUpdateManager` on a bundle, of src/sentinel_edge/update/manager.py.
use sentinel_edge.Prelude.{
  ltb, leb, ◌==◌, if◌then◌else◌, any, Result, nat_eq, string_eq, Dict, lookup, has_duplicate, ℕ,
  String, ◌≡◌, ◌↔◌, Bool, true, false, not, ◌&&◌, ◌||◌, Option, none, some, List, [], ◌∷◌, str_eq,
  ok, err,
}
use sentinel_edge.Domain.Kinds.{Instant, RuntimeMode}
use sentinel_edge.Update.{
  OfflineUpdateMetadata, OfflineUpdateTarget, safe_relative_target_path, is_protected,
  version_tuple, tuple_lt, paths, validate_update_metadata,
}

-- Base64, Ed25519 with the manager's public key, SHA-256, JSON, and Python's `int` and `str.lower`.
pub record Tools : Type 1 where
  pub Bytes : Type 0
  pub byte_length : Bytes → ℕ
  pub sha256 : Bytes → String
  pub b64decode : Bytes → Option Bytes
  -- The signature and the message.
  pub is_signature : Bytes → Bytes → Bool
  pub key_id : String
  pub bytes_eq : Bytes → Bytes → Bool
  pub bytes_eq_iff : (a b : Bytes) → (bytes_eq a b ≡ true) ↔ (a ≡ b)
  pub canonical_json : OfflineUpdateMetadata → Bytes
  pub from_json : Bytes → Option OfflineUpdateMetadata
  pub int : String → Option ℕ
  pub int_text : ℕ → String
  pub lower : String → String

pub data UpdateError : Type 0 where
  duplicate_members unsafe_member missing_metadata invalid_signature invalid_metadata : UpdateError
  key_mismatch not_canonical expired_metadata future_metadata invalid_version : UpdateError
  incompatible rollback_or_replay members_differ protected_target target_mismatch : UpdateError
  tombstones_too_old tombstones_differ immutable_mode not_field_lab outside_root : UpdateError
  not_staged staged_mismatch : UpdateError

abbrev pub metadata_name : String
metadata_name = "metadata.json"

abbrev pub signature_name : String
signature_name = "metadata.ed25519"

-- The position and the digest of the privacy tombstones.
pub record Tombstones : Type 0 where
  pub position : ℕ
  pub journal_sha256 : String

abbrev is_changed : Option String → String → Bool
is_changed none digest = false
is_changed (some wanted) digest = not (str_eq digest wanted)

-- `_verify_tombstone_requirement`
unfoldable pub verify_tombstone_requirement :
    OfflineUpdateMetadata → Tombstones → Result UpdateError (Unit {0})
verify_tombstone_requirement m now =
    if ltb now.position m.minimum_tombstone_authority_position
    then err tombstones_too_old
    else if is_changed m.required_tombstone_journal_sha256 now.journal_sha256
        && now.position == m.minimum_tombstone_authority_position
    then err tombstones_differ
    else ok tt

abbrev pub is_immutable : RuntimeMode → Bool
is_immutable RuntimeMode.judge = true
is_immutable RuntimeMode.benchmark = true
is_immutable _ = false

abbrev pub is_field_lab : RuntimeMode → Bool
is_field_lab RuntimeMode.field_lab = true
is_field_lab _ = false

abbrev has_name : List String → String → Bool
has_name l s = any (str_eq s) l

abbrev is_canonical_name : String → Bool
is_canonical_name name = elim (safe_relative_target_path name) as (λ _. Bool) [
  | none ↦ false
  | some safe ↦ str_eq safe name
]

module _ (tl : Tools) where
  open tl use {Bytes, sha256, b64decode, is_signature, bytes_eq, canonical_json, from_json}

  -- A directory, or the members of an archive.
  abbrev pub Tree : Type 0
  Tree = Dict String Bytes

  pub record Pointer : Type 0 where
    pub bundle_id : String
    pub version : ℕ
    pub path : String
    pub metadata_sha256 : String
    pub activated_at : Instant

  -- The directories below the update root, and `active.json`.
  pub record Updates : Type 0 where
    pub staged : Dict String Tree
    pub activated : Dict String Tree
    pub pointer : Option Pointer

  pub record OfflineUpdateManager : Type 0 where
    pub current_project_version : String
    pub mode : RuntimeMode

  unfoldable pub current_update_version : Updates → ℕ
  current_update_version u = elim u.pointer [ none ↦ 0 | some p ↦ p.version ]

  unfoldable pub load_metadata : Bytes → Option OfflineUpdateMetadata
  load_metadata b = elim (from_json b) [
    | none ↦ none
    | some m ↦ validate_update_metadata tl.lower m
  ]

  abbrev names : Tree → List String
  names [] = []
  names ((name, b) ∷ t) = name ∷ names t

  -- `public_key.verify` on the decoded signature.
  abbrev pub is_signed : (signature : Bytes) → (metadata : Bytes) → Bool
  is_signed signature metadata = elim (b64decode signature) [
    | none ↦ false
    | some raw ↦ is_signature raw metadata
  ]

  -- A file that a target describes.
  abbrev pub matches : Tree → OfflineUpdateTarget → Bool
  matches t g = elim (lookup g.path t) [
    | none ↦ false
    | some data_ ↦ tl.byte_length data_ == g.byte_length && str_eq (sha256 data_) g.sha256
  ]

  -- Whether the current version lies outside the compatible range; none on a version that is no
  -- version.
  unfoldable pub is_incompatible : OfflineUpdateManager → OfflineUpdateMetadata → Option Bool
  is_incompatible o m = elim (version_tuple tl.int o.current_project_version) [
    | none ↦ none
    | some current ↦ elim (version_tuple tl.int m.compatible_min_version) [
      | none ↦ none
      | some least ↦
          if tuple_lt current least
          then some true
          else elim (version_tuple tl.int m.compatible_max_version) [
            | none ↦ none
            | some most ↦ some (tuple_lt most current)
          ]
    ]
  ]

  abbrev differ : List String → List String → Bool
  differ members declared =
      any
        (λ (name : String).
          not (has_name declared name || str_eq name metadata_name || str_eq name signature_name))
        members
      || any (λ (name : String). not (has_name members name)) declared

  -- The loop over the targets.
  unfoldable pub check_targets : Tree → List OfflineUpdateTarget → Result UpdateError (Unit {0})
  check_targets t [] = ok tt
  check_targets t (g ∷ gs) =
      let rest = check_targets t gs in
      if is_protected g.path
      then err protected_target
      else if not (matches t g)
      then err target_mismatch
      else rest

  -- The checks of `verify` on the metadata that was signed.
  unfoldable pub check_metadata :
      OfflineUpdateManager
      → Tree
      → Bytes
      → OfflineUpdateMetadata
      → Tombstones
      → (now : Instant) → Updates
      → Result UpdateError (Unit {0})
  check_metadata o t signed m tombstones now u =
      if not (str_eq tl.key_id m.root_key_id)
      then err key_mismatch
      else if not (bytes_eq (canonical_json m) signed)
      then err not_canonical
      else if leb m.expires_at now
      then err expired_metadata
      else if ltb now m.created_at
      then err future_metadata
      else elim (is_incompatible o m) [
        | none ↦ err invalid_version
        | some incompatible_now ↦
            if incompatible_now
            then err incompatible
            else if leb m.version (current_update_version u)
            then err rollback_or_replay
            else if differ (names t) (paths m.targets)
            then err members_differ
            else elim (check_targets t m.targets) [
              | err x ↦ err x
              | ok _ ↦ verify_tombstone_requirement m tombstones
            ]
      ]

  unfoldable pub verify :
      OfflineUpdateManager
      → Tree
      → Tombstones
      → (now : Instant) → Updates
      → Result UpdateError OfflineUpdateMetadata
  verify o t tombstones now u =
      if has_duplicate (names t)
      then err duplicate_members
      else if any (λ (name : String). not (is_canonical_name name)) (names t)
      then err unsafe_member
      else elim (lookup metadata_name t) [
        | none ↦ err missing_metadata
        | some signed ↦ elim (lookup signature_name t) [
          | none ↦ err missing_metadata
          | some signature ↦
              if not (is_signed signature signed)
              then err invalid_signature
              else elim (load_metadata signed) [
                | none ↦ err invalid_metadata
                | some m ↦ elim (check_metadata o t signed m tombstones now u) [
                  | err x ↦ err x
                  | ok _ ↦ ok m
                ]
              ]
        ]
      ]
