-- ===== src/Domain/Kinds/Equality.antt =====
-- `is` and `==` on the enumerations, by the number of each member.
use sentinel_edge.Prelude.{◌==◌, Eq, ℕ, ◌≡◌, ◌↔◌, Bool, true, false, arith}
use sentinel_edge.Domain.Kinds.{
  HazardKind, IncidentState, IncidentRelationKind, IncidentCommandKind, NotificationStatus,
}

abbrev hazard_index : HazardKind → ℕ
hazard_index HazardKind.wildfire = 0
hazard_index HazardKind.flood = 1
hazard_index HazardKind.earthquake = 2
hazard_index HazardKind.landslide = 3

abbrev pub same_hazard : HazardKind → HazardKind → Bool
same_hazard a b = hazard_index a == hazard_index b

pub same_hazard_iff : (a b : HazardKind) → (same_hazard a b ≡ true) ↔ (a ≡ b)
same_hazard_iff a b = (λ h. ground arith, λ h. ground arith)

instance abbrev pub hazard_eq : Eq HazardKind
hazard_eq = record { beq = same_hazard; beq_iff = same_hazard_iff }

abbrev state_index : IncidentState → ℕ
state_index IncidentState.normal = 0
state_index IncidentState.watch = 1
state_index IncidentState.suspected = 2
state_index IncidentState.confirmed = 3
state_index IncidentState.resolving = 4
state_index IncidentState.resolved = 5
state_index IncidentState.degraded = 6

abbrev pub same_state : IncidentState → IncidentState → Bool
same_state a b = state_index a == state_index b

pub same_state_iff : (a b : IncidentState) → (same_state a b ≡ true) ↔ (a ≡ b)
same_state_iff a b = (λ h. ground arith, λ h. ground arith)

abbrev relation_index : IncidentRelationKind → ℕ
relation_index IncidentRelationKind.cascade_context = 0
relation_index IncidentRelationKind.susceptibility_increase = 1
relation_index IncidentRelationKind.temporal_association = 2
relation_index IncidentRelationKind.same_event_solution = 3
relation_index IncidentRelationKind.merged_alias = 4

abbrev pub same_relation : IncidentRelationKind → IncidentRelationKind → Bool
same_relation a b = relation_index a == relation_index b

-- `command in {LINK, MERGE}`
abbrev pub is_relating : IncidentCommandKind → Bool
is_relating IncidentCommandKind.link = true
is_relating IncidentCommandKind.merge = true
is_relating _ = false

abbrev pub is_confirmed : IncidentState → Bool
is_confirmed IncidentState.confirmed = true
is_confirmed _ = false

abbrev pub is_suppressed : NotificationStatus → Bool
is_suppressed NotificationStatus.suppressed = true
is_suppressed _ = false
