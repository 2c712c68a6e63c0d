-- ===== src/Incidents/Conformance.antt =====
-- `projection_conformance` of src/sentinel_edge/incidents/engine.py, and `AuthorityWatermark` of
-- src/sentinel_edge/authority.py. `json` is a payload's stored text.
pub mod Histories
use sentinel_edge.Prelude.{
  ◌==◌, if◌then◌else◌, any, is_blank, nat_eq, Dict, lookup, ℕ, String, Bool, true, false, not, ◌&&◌,
  ◌||◌, Option, none, some, List, [], ◌∷◌, ◌++◌,
}
use sentinel_edge.Domain.Kinds.{HazardKind}
use sentinel_edge.Domain.Kinds.Equality.{hazard_eq, same_state}
use sentinel_edge.Domain.Records.{IncidentRecord}
use sentinel_edge.Storage.Journal.{AuthorityPayload}
use sentinel_edge.Storage.Journal.Reads.{latest_by_hazard}
use sentinel_edge.Storage.Journal.Chain.{Failure, Conformance, authority_conformance}
use sentinel_edge.Incidents.{Engine, by_hazard}

pub record AuthorityWatermark : Type 0 where
  pub epoch_id : String
  pub highest_contiguous_position : ℕ
  pub accepted_event_count : ℕ
  pub valid : Bool
  pub failures : List Failure

abbrev has_failures : List Failure → Bool
has_failures [] = false
has_failures _ = true

-- `validate_watermark`
unfoldable pub validate_watermark : AuthorityWatermark → Bool
validate_watermark w =
    not (is_blank w.epoch_id)
    && not (w.valid && has_failures w.failures)
    && (w.valid || w.highest_contiguous_position == 0)

-- `from_conformance`; none where the validator refuses.
unfoldable pub from_conformance : Conformance → Option AuthorityWatermark
from_conformance c =
    let w : AuthorityWatermark = record {
      epoch_id = c.epoch_id;
      highest_contiguous_position = c.highest_contiguous_position;
      accepted_event_count = c.event_count;
      valid = c.valid;
      failures = c.failures;
    } in
    if validate_watermark w then some w else none

pub data Divergence : Type 0 where
  projection_hazard_set_mismatch authority_journal_invalid : Divergence
  projection_divergence : HazardKind → Divergence

pub record ProjectionConformance : Type 0 where
  pub valid : Bool
  pub authority_watermark : ℕ
  pub failures : List Divergence

-- The hazards in the order of their texts.
abbrev pub hazards : List HazardKind
hazards = HazardKind.earthquake ∷ HazardKind.flood ∷ HazardKind.landslide ∷ HazardKind.wildfire ∷ []

-- The report on the failures that were found.
abbrev pub report_on : (sided : Bool) → List Divergence → Conformance → ProjectionConformance
report_on sided found authority =
    let failures =
      (if sided then projection_hazard_set_mismatch ∷ [] else [])
      ++ found
      ++ (if authority.valid then [] else authority_journal_invalid ∷ []) in
    record {
      valid = elim failures [ [] ↦ true | _ ↦ false ];
      authority_watermark = authority.highest_contiguous_position;
      failures = failures;
    }

module _ {Float : Type 0} where
  abbrev pub diverges : Option (IncidentRecord Float) → Option (IncidentRecord Float) → Bool
  diverges (some a) (some b) =
      not (a.incident_id == b.incident_id && a.version == b.version && same_state a.state b.state)
  diverges _ _ = false

  abbrev pub one_sided : Option (IncidentRecord Float) → Option (IncidentRecord Float) → Bool
  one_sided (some a) none = true
  one_sided none (some b) = true
  one_sided _ _ = false

  unfoldable pub divergences :
      List HazardKind
      → Dict HazardKind (IncidentRecord Float)
      → Dict HazardKind (IncidentRecord Float)
      → List Divergence
  divergences [] durable current = []
  divergences (h ∷ hs) durable current =
      let rest = divergences hs durable current in
      if diverges (lookup h durable) (lookup h current)
      then projection_divergence h ∷ rest
      else rest

  unfoldable pub projection_conformance :
      (digest json : AuthorityPayload Float → String) → Engine Float → ProjectionConformance
  projection_conformance digest json e =
      let durable = by_hazard (latest_by_hazard e.journal) [] in
      report_on (any (λ h. one_sided (lookup h durable) (lookup h e.current)) hazards)
        (divergences hazards durable e.current) (authority_conformance digest json e.journal)
