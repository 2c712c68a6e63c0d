-- ===== src/Storage/Journal/Chain.antt =====
-- The authority chain: `authority_conformance` of src/sentinel_edge/storage/sqlite_store.py, and the
-- shape of the two authority tables that it checks. `json` is a payload's stored text.
pub mod Append
pub mod Valid
use sentinel_edge.Prelude.{
  ◌==◌, length, keep, first, any, last, ℕ, suc, ◌+◌, String, ◌≡◌, Bool, true, false, not, ◌||◌,
  Option, none, some, List, [], ◌∷◌, ◌++◌, str_eq,
}
use sentinel_edge.Domain.Kinds.{AuthorityMutationKind}
use sentinel_edge.Storage.Journal.{AuthorityPayload, AuthorityEvent, AuthoritySubtype, JournalStore}

pub data Failure : Type 0 where
  wrong_epoch ordinal_gap predecessor_mismatch missing_subtype subtype_identity_mismatch :
      ℕ → Failure
  supertype_digest_mismatch subtype_digest_mismatch orphan_subtypes : ℕ → Failure

pub record Conformance : Type 0 where
  pub valid : Bool
  pub epoch_id : String
  pub event_count : ℕ
  pub highest_contiguous_position : ℕ
  pub failures : List Failure

abbrev kind_index : AuthorityMutationKind → ℕ
kind_index AuthorityMutationKind.incident = 0
kind_index AuthorityMutationKind.review = 1
kind_index AuthorityMutationKind.notification_intent = 2
kind_index AuthorityMutationKind.notification_delivery = 3
kind_index AuthorityMutationKind.configuration = 4
kind_index AuthorityMutationKind.command = 5
kind_index AuthorityMutationKind.evidence = 6
kind_index AuthorityMutationKind.claim = 7
kind_index AuthorityMutationKind.claim_link = 8
kind_index AuthorityMutationKind.incident_relation = 9
kind_index AuthorityMutationKind.evidence_lifecycle = 10
kind_index AuthorityMutationKind.media_parse = 11
kind_index AuthorityMutationKind.evidence_reevaluation = 12
kind_index AuthorityMutationKind.disposition = 13

-- `row["predecessor_position"] != previous_position`
abbrev pub same_position : Option ℕ → Option ℕ → Bool
same_position none none = true
same_position none (some b) = false
same_position (some a) none = false
same_position (some a) (some b) = a == b

abbrev pub fails : Bool → Failure → List Failure → List Failure
fails true f rest = f ∷ rest
fails false f rest = rest

abbrev report_of : ℕ → ℕ → List Failure → Conformance
report_of count watermark [] = record {
  valid = true;
  epoch_id = "authority-epoch-1";
  event_count = count;
  highest_contiguous_position = watermark;
  failures = [];
}
report_of count watermark (f ∷ fs) = record {
  valid = false;
  epoch_id = "authority-epoch-1";
  event_count = count;
  highest_contiguous_position = 0;
  failures = f ∷ fs;
}

module _ {Float : Type 0} where
  -- The left join on the position.
  abbrev pub subtype_of : ℕ → List (AuthoritySubtype Float) → Option (AuthoritySubtype Float)
  subtype_of position subs = first (λ b. b.authority_position == position) subs

  abbrev pub last_position : Option (AuthorityEvent Float) → ℕ
  last_position none = 0
  last_position (some e) = e.position

module _ {Float : Type 0} (digest json : AuthorityPayload Float → String) where
  -- What a subtype row, or its absence, adds for an event.
  abbrev subtype_failures :
      AuthorityEvent Float → Option (AuthoritySubtype Float) → List Failure → List Failure
  subtype_failures e none rest =
      missing_subtype e.position
      ∷ fails (not (str_eq e.payload_sha256 (digest e.payload)))
          (supertype_digest_mismatch e.position) (subtype_digest_mismatch e.position ∷ rest)
  subtype_failures e (some b) rest =
      fails (not (kind_index b.kind == kind_index e.kind) || not (b.subtype_id == e.entity_id))
        (subtype_identity_mismatch e.position)
        (fails (not (str_eq e.payload_sha256 (digest e.payload)))
          (supertype_digest_mismatch e.position)
          (fails
            (not (str_eq b.payload_sha256 (digest e.payload))
              || not (str_eq (json b.payload) (json e.payload)))
            (subtype_digest_mismatch e.position) rest))

  -- The loop over the rows: the failures that follow, from an expected ordinal and a previous position.
  unfoldable pub row_failures :
      List (AuthoritySubtype Float) → ℕ → Option ℕ → List (AuthorityEvent Float) → List Failure
  row_failures subs expected previous [] = []
  row_failures subs expected previous (e ∷ es) =
      fails (not (str_eq e.epoch_id "authority-epoch-1")) (wrong_epoch e.position) (
        fails (not (e.epoch_ordinal == expected)) (ordinal_gap e.position) (
          fails (not (same_position e.predecessor_position previous))
            (predecessor_mismatch e.position)
            (subtype_failures e (subtype_of e.position subs)
              (row_failures subs (expected + 1) (some e.position) es))))

  unfoldable pub orphans :
      List (AuthorityEvent Float) → List (AuthoritySubtype Float) → List (AuthoritySubtype Float)
  orphans es subs = keep (λ b. not (any (λ e. e.position == b.authority_position) es)) subs

  unfoldable pub authority_conformance : JournalStore Float → Conformance
  unfolding row_failures orphans
  authority_conformance s =
      let count = length (orphans s.authority_events s.authority_event_subtypes) in
      report_of (length s.authority_events) (last_position (last s.authority_events)) (
        row_failures s.authority_event_subtypes 1 none s.authority_events
        ++ fails (not (count == 0)) (orphan_subtypes count) [])

  -- A row and its subtype at position `n` after `previous`.
  pub record IsLinked (n : ℕ) (previous : Option ℕ) (e : AuthorityEvent Float)
      (b : AuthoritySubtype Float) : Type 0 where
    pub position : e.position ≡ n
    pub epoch : e.epoch_id ≡ "authority-epoch-1"
    pub ordinal : e.epoch_ordinal ≡ n
    pub predecessor : e.predecessor_position ≡ previous
    pub digested : e.payload_sha256 ≡ digest e.payload
    pub sub_position : b.authority_position ≡ n
    pub sub_kind : b.kind ≡ e.kind
    pub sub_id : b.subtype_id ≡ e.entity_id
    pub sub_digest : b.payload_sha256 ≡ digest e.payload
    pub sub_payload : b.payload ≡ e.payload

  abbrev pub Chain :
      ℕ → Option ℕ → List (AuthorityEvent Float) → List (AuthoritySubtype Float) → Type 0
  Chain n previous [] [] = Unit
  Chain n previous [] (b ∷ bs) = ⊥
  Chain n previous (e ∷ es) [] = ⊥
  Chain n previous (e ∷ es) (b ∷ bs) = IsLinked n previous e b × Chain (suc n) (some n) es bs

  -- Both tables hold one row for each position from 1 on, each linked to the one before.
  abbrev pub IsChained : JournalStore Float → Type 0
  IsChained s = Chain 1 none s.authority_events s.authority_event_subtypes
