-- ===== src/Update.antt =====
-- Offline updates of src/sentinel_edge/update/manager.py: their metadata, paths and versions, with
-- the records of src/sentinel_edge/domain/models.py.
pub mod Verification
pub mod Manager
pub mod Soundness
pub mod Activation
pub mod Examples
use sentinel_edge.Prelude.{
  ltb, leb, ◌==◌, if◌then◌else◌, any, text_append, text_length, all_hexadecimal, is_empty, strip,
  nat_eq, string_eq, has_duplicate, ℕ, String, Bool, true, false, not, ◌&&◌, ◌||◌, Option, none,
  some, List, [], ◌∷◌, map, str_eq,
}
use sentinel_edge.Domain.Kinds.{Instant}
use Prim.Native.Char.{code}

pub data UpdateBundleState : Type 0 where
  staged verified rejected activated rolled_back : UpdateBundleState

pub record OfflineUpdateTarget : Type 0 where
  pub path : String
  pub byte_length : ℕ
  pub sha256 : String

pub record OfflineUpdateMetadata : Type 0 where
  pub schema_version : String
  pub bundle_id : String
  pub version : ℕ
  pub created_at : Instant
  pub expires_at : Instant
  pub compatible_project : String
  pub compatible_min_version : String
  pub compatible_max_version : String
  pub targets : List OfflineUpdateTarget
  pub root_key_id : String
  pub minimum_tombstone_authority_position : ℕ
  pub required_tombstone_journal_sha256 : Option String

pub record OfflineUpdateVerification : Type 0 where
  pub bundle_id : String
  pub version : ℕ
  pub state : UpdateBundleState
  pub verified_at : Instant
  pub metadata_sha256 : String
  pub signer_key_id : String
  pub reason_codes : List String

-- `value.split(chr(separator))`
unfoldable pub split : (separator : ℕ) → String → List String
split separator String.[] = String.[] ∷ []
split separator (String.◌∷◌ c s) =
    let rest = split separator s in
    if code c == separator
    then String.[] ∷ rest
    else elim rest [ [] ↦ String.◌∷◌ c String.[] ∷ [] | w ∷ ws ↦ String.◌∷◌ c w ∷ ws ]

unfoldable pub with_slashes : String → String
with_slashes String.[] = String.[]
with_slashes (String.◌∷◌ c s) =
    let rest = with_slashes s in if code c == 92 then text_append "/" rest else String.◌∷◌ c rest

unfoldable pub starts_with : (prefix : String) → String → Bool
starts_with String.[] s = true
starts_with (String.◌∷◌ c p) String.[] = false
starts_with (String.◌∷◌ c p) (String.◌∷◌ d s) = code c == code d && starts_with p s

-- `safe_relative_target_path`
unfoldable pub safe_relative_target_path : String → Option String
safe_relative_target_path value =
    let candidate = with_slashes (strip value) in
    if is_empty candidate
      || starts_with "/" candidate
      || any (λ part. str_eq part "..") (split 47 candidate)
    then none
    else some candidate

-- `_PROTECTED_TARGET_PREFIXES`
unfoldable pub is_protected : String → Bool
is_protected path =
    any (λ (prefix : String). starts_with prefix path)
      ("artifacts/" ∷ "evidence/" ∷ "backups/" ∷ "privacy/" ∷ "state/" ∷ [])

-- `value.split(separator)[0]`
abbrev first_part : ℕ → String → String
first_part separator s = elim (split separator s) as (λ _. String) [ [] ↦ String.[] | w ∷ ws ↦ w ]

unfoldable pub all_some : {A : Type 0} → List (Option A) → Option (List A)
all_some [] = some []
all_some (none ∷ l) = none
all_some (some a ∷ l) = elim (all_some l) [ none ↦ none | some m ↦ some (a ∷ m) ]

-- `_version_tuple`, over Python's `int`.
unfoldable pub version_tuple : (String → Option ℕ) → String → Option (List ℕ)
version_tuple int value = all_some (map int (split 46 (first_part 45 (first_part 43 value))))

-- `<` on tuples
unfoldable pub tuple_lt : List ℕ → List ℕ → Bool
tuple_lt [] [] = false
tuple_lt [] (b ∷ m) = true
tuple_lt (a ∷ l) [] = false
tuple_lt (a ∷ l) (b ∷ m) = ltb a b || a == b && tuple_lt l m

abbrev pub paths : List OfflineUpdateTarget → List String
paths [] = []
paths (t ∷ ts) = t.path ∷ paths ts

abbrev has_targets : List OfflineUpdateTarget → Bool
has_targets [] = false
has_targets _ = true

-- A digest of 64 characters; the test is made on its lower case.
abbrev is_digest : (String → String) → Option String → Bool
is_digest lower none = true
is_digest lower (some s) = text_length s == 64 && all_hexadecimal (lower s)

unfoldable pub safe_target : OfflineUpdateTarget → Option OfflineUpdateTarget
safe_target t = elim (safe_relative_target_path t.path) [
  | none ↦ none
  | some path ↦ some (record t { path = path })
]

-- The validation of `OfflineUpdateMetadata`.
unfoldable pub validate_update_metadata :
    (lower : String → String) → OfflineUpdateMetadata → Option OfflineUpdateMetadata
validate_update_metadata lower m = elim (all_some (map safe_target m.targets)) [
  | none ↦ none
  | some targets ↦
      if ltb m.created_at m.expires_at
        && leb 1 m.version
        && has_targets targets
        && is_digest lower m.required_tombstone_journal_sha256
        && not (has_duplicate (paths targets))
      then some (record m { targets = targets })
      else none
]
