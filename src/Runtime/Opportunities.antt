-- ===== src/Runtime/Opportunities.antt =====
-- `OpportunityLedger` of src/sentinel_edge/runtime/opportunities.py: the record of offered work. The
-- identity of an opportunity is a name-based UUID, a parameter; a mark on an unknown one raises.
use sentinel_edge.Prelude.{
  ◌==◌, if◌then◌else◌, length, Result, nat_eq, Dict, lookup, insert, has, ℕ, suc, String, Bool,
  true, false, not, Option, none, some, List, [], ◌∷◌, ◌++◌, str_eq, ok, err,
}
use sentinel_edge.Domain.Kinds.{Uuid, Instant, HazardKind, OpportunityDisposition}

pub record OpportunityRecord : Type 0 where
  pub opportunity_id : Uuid
  pub correlation_id : Uuid
  pub workload_id : String
  pub hazard : HazardKind
  pub scheduled_release_at : Instant
  pub actual_release_at : Option Instant
  pub captured_at : Option Instant
  pub queue_started_monotonic_ns : Option ℕ
  pub service_started_monotonic_ns : Option ℕ
  pub completed_monotonic_ns : Option ℕ
  pub deadline_monotonic_ns : Option ℕ
  pub disposition : OpportunityDisposition
  pub reason_codes : List String

abbrev pub Ledger : Type 0
Ledger = Dict Uuid OpportunityRecord

pub data LedgerError : Type 0 where
  unknown_opportunity terminal_disposition_required : LedgerError

-- `if reason not in codes: codes.append(reason)`
abbrev pub add_reason : String → List String → List String
add_reason reason codes = if has reason codes then codes else codes ++ reason ∷ []

unfoldable pub offer :
    (opportunity_uuid : Uuid → String → Instant → Uuid)
    → (workload_id : String) (hazard : HazardKind) (scheduled_release_at : Instant)
    → (captured_at : Option Instant) (correlation_id : Uuid) → Ledger
    → OpportunityRecord × Ledger
offer opportunity_uuid workload_id hazard scheduled_release_at captured_at correlation_id d =
    let r : OpportunityRecord = record {
      opportunity_id = opportunity_uuid correlation_id workload_id scheduled_release_at;
      correlation_id = correlation_id;
      workload_id = workload_id;
      hazard = hazard;
      scheduled_release_at = scheduled_release_at;
      actual_release_at = none;
      captured_at = captured_at;
      queue_started_monotonic_ns = none;
      service_started_monotonic_ns = none;
      completed_monotonic_ns = none;
      deadline_monotonic_ns = none;
      disposition = OpportunityDisposition.offered;
      reason_codes = [];
    } in
    (r, insert r.opportunity_id r d)

-- `record = self._records[opportunity_id]`, and the record changed in place.
unfoldable pub change :
    Uuid → (OpportunityRecord → OpportunityRecord) → Ledger → Result LedgerError Ledger
change id f d = elim (lookup id d) [
  | none ↦ err unknown_opportunity
  | some r ↦ ok (insert id (f r) d)
]

unfoldable pub mark_queued : Uuid → Instant → ℕ → ℕ → Ledger → Result LedgerError Ledger
unfolding change
mark_queued id actual_release_at queue_ns deadline_ns = change id (λ r. record r {
  actual_release_at = some actual_release_at;
  queue_started_monotonic_ns = some queue_ns;
  deadline_monotonic_ns = some deadline_ns;
  disposition = OpportunityDisposition.queued;
})

unfoldable pub mark_deferred : Uuid → String → Ledger → Result LedgerError Ledger
unfolding change
mark_deferred id reason = change id (λ r. record r {
  disposition = OpportunityDisposition.deferred;
  reason_codes = add_reason reason r.reason_codes;
})

unfoldable pub mark_started : Uuid → ℕ → Ledger → Result LedgerError Ledger
unfolding change
mark_started id service_ns =
    change id (λ r. record r { service_started_monotonic_ns = some service_ns })

abbrev pub is_terminal : OpportunityDisposition → Bool
is_terminal OpportunityDisposition.offered = false
is_terminal OpportunityDisposition.queued = false
is_terminal OpportunityDisposition.deferred = false
is_terminal _ = true

abbrev with_reason : Option String → List String → List String
with_reason none codes = codes
with_reason (some reason) codes = if str_eq reason "" then codes else add_reason reason codes

unfoldable pub mark_terminal :
    Uuid → OpportunityDisposition → ℕ → Option String → Ledger → Result LedgerError Ledger
unfolding change
mark_terminal id disposition completed_ns reason d =
    if not (is_terminal disposition)
    then err terminal_disposition_required
    else change id
        (λ r. record r {
          completed_monotonic_ns = some completed_ns;
          disposition = disposition;
          reason_codes = with_reason reason r.reason_codes;
        })
        d

abbrev count_terminal : Ledger → ℕ
count_terminal [] = 0
count_terminal ((id, r) ∷ d) =
    let rest = count_terminal d in if is_terminal r.disposition then suc rest else rest

-- `reconcile`: offered, terminal, balanced.
unfoldable pub reconcile : Ledger → ℕ × ℕ × Bool
reconcile d = (length d, count_terminal d, length d == count_terminal d)
