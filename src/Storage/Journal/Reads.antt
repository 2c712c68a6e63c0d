-- ===== src/Storage/Journal/Reads.antt =====
-- The reads of `IncidentJournalStore` (src/sentinel_edge/storage/sqlite_store.py).
use Prim.Native.Nat.{max}
use sentinel_edge.Prelude.{
  ltb, leb, ◌==◌, if◌then◌else◌, or_default, length, keep, first, nat_eq, lookup, ℕ, String, Bool,
  ◌&&◌, ◌||◌, Option, none, List, [], ◌∷◌, ◌++◌, str_eq,
}
use sentinel_edge.Domain.Kinds.{Uuid, HazardKind}
use sentinel_edge.Domain.Kinds.Equality.{same_hazard}
use sentinel_edge.Domain.Records.{IncidentRecord, IncidentReviewState, CommandReceipt}
use sentinel_edge.Storage.Journal.{JournalStore}

-- The order of `accepted_at`, and then of `command_id`.
abbrev accepted_before : CommandReceipt → CommandReceipt → Bool
accepted_before a b =
    ltb a.accepted_at b.accepted_at
    || a.accepted_at == b.accepted_at && leb a.command_id b.command_id

unfoldable pub insert_receipt : CommandReceipt → List CommandReceipt → List CommandReceipt
insert_receipt r [] = r ∷ []
insert_receipt r (q ∷ rs) =
    let rest = insert_receipt r rs in if accepted_before r q then r ∷ q ∷ rs else q ∷ rest

unfoldable pub in_accepted_order : List CommandReceipt → List CommandReceipt
in_accepted_order [] = []
in_accepted_order (r ∷ rs) = insert_receipt r (in_accepted_order rs)

module _ {Float : Type 0} where
  -- `all`, in the order of commitment.
  unfoldable pub all_incidents : List (ℕ × IncidentRecord Float) → List (IncidentRecord Float)
  all_incidents [] = []
  all_incidents ((position, r) ∷ rows) = r ∷ all_incidents rows

  -- `SELECT MAX(version) … WHERE hazard = h`, 0 where there is none.
  unfoldable pub max_version : HazardKind → List (ℕ × IncidentRecord Float) → ℕ
  max_version h [] = 0
  max_version h ((position, r) ∷ rows) =
      let rest = max_version h rows in if same_hazard r.hazard h then max r.version rest else rest

  unfoldable pub of_version :
      HazardKind → ℕ → List (ℕ × IncidentRecord Float) → List (IncidentRecord Float)
  of_version h v [] = []
  of_version h v ((position, r) ∷ rows) =
      let rest = of_version h v rows in
      if same_hazard r.hazard h && r.version == v then r ∷ rest else rest

  unfoldable pub latest_of : JournalStore Float → HazardKind → List (IncidentRecord Float)
  unfolding max_version of_version
  latest_of s h = of_version h (max_version h s.incident_events) s.incident_events

  -- `ORDER BY hazard` is the order of the hazards' texts.
  unfoldable pub latest_by_hazard : JournalStore Float → List (IncidentRecord Float)
  unfolding latest_of
  latest_by_hazard s =
      latest_of s HazardKind.earthquake
      ++ (latest_of s HazardKind.flood
          ++ (latest_of s HazardKind.landslide ++ latest_of s HazardKind.wildfire))

  unfoldable pub review_state : JournalStore Float → Uuid → IncidentReviewState
  review_state s incident_id = or_default (lookup incident_id s.incident_review_state) (record {
    incident_id = incident_id;
    acknowledged_at = none;
    acknowledged_by = none;
    snoozed_until = none;
    snoozed_by = none;
    review_count = 0;
  })

  unfoldable pub notification_count : JournalStore Float → Uuid → ℕ
  notification_count s incident_id =
      length (keep (λ n. n.incident_id == incident_id) s.notification_intents)

  unfoldable pub command_receipt : JournalStore Float → String → Option CommandReceipt
  command_receipt s key = first (λ r. str_eq r.scoped_idempotency_key key) s.command_receipts

  unfoldable pub command_receipts : JournalStore Float → List CommandReceipt
  command_receipts s = in_accepted_order s.command_receipts
