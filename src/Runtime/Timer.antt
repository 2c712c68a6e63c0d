-- ===== src/Runtime/Timer.antt =====
-- src/sentinel_edge/runtime/timer_policy.py: timer classes, and what a timer may authorise.
pub mod Laws
mod Examples
use sentinel_edge.Prelude.{
  ltb, leb, if◌then◌else◌, is_blank, Floats, ℕ, String, Bool, true, false, not, ◌&&◌, ◌||◌, List,
  [], ◌∷◌, str_eq,
}

pub data TimerClass : Type 0 where
  monotonic_ephemeral trusted_utc_persistent retention_safety : TimerClass

pub record TimerPolicy : Type 0 where
  pub artifact_grant : TimerClass
  pub source_ttl : TimerClass
  pub offline_command : TimerClass
  pub session : TimerClass
  pub outbox_expiry : TimerClass
  pub artifact_retention : TimerClass

abbrev pub default_policy : TimerPolicy
default_policy = record {
  artifact_grant = TimerClass.monotonic_ephemeral;
  source_ttl = TimerClass.trusted_utc_persistent;
  offline_command = TimerClass.monotonic_ephemeral;
  session = TimerClass.monotonic_ephemeral;
  outbox_expiry = TimerClass.trusted_utc_persistent;
  artifact_retention = TimerClass.retention_safety;
}

abbrev class_value : TimerClass → String
class_value TimerClass.monotonic_ephemeral = "monotonic-ephemeral"
class_value TimerClass.trusted_utc_persistent = "trusted-utc-persistent"
class_value TimerClass.retention_safety = "retention-safety"

pub as_dict : TimerPolicy → List (String × String)
as_dict p =
    ("artifact_grant", class_value p.artifact_grant)
    ∷ ("source_ttl", class_value p.source_ttl)
    ∷ ("offline_command", class_value p.offline_command)
    ∷ ("session", class_value p.session)
    ∷ ("outbox_expiry", class_value p.outbox_expiry)
    ∷ ("artifact_retention", class_value p.artifact_retention)
    ∷ []

pub record AuthorityDecision : Type 0 where
  pub allowed : Bool
  pub reason : String

abbrev decide : Bool → String → AuthorityDecision
decide a r = record { allowed = a; reason = r }

unfoldable pub cross_reboot_high_impact : Bool → Bool → AuthorityDecision
cross_reboot_high_impact utc_trusted stale =
    if not utc_trusted
    then decide false "reconfirmation_required_uncertain_utc"
    else if stale
    then decide false "reconfirmation_required_stale_action"
    else decide true "cross_reboot_authority_valid"

unfoldable pub retention_gc_allowed : Bool → Bool → Bool → AuthorityDecision
retention_gc_allowed utc_trusted minimum_age_met wall_clock_expired =
    if not minimum_age_met
    then decide false "minimum_retention_age_not_met"
    else if wall_clock_expired && not utc_trusted
    then decide false "untrusted_wall_clock_cannot_trigger_gc"
    else decide true "retention_gc_allowed"

module _ (fl : Floats) where
  open fl use {Float, float_lt, of_nat}

  unfoldable pub source_freshness_allowed : Bool → Bool → ℕ → Float → AuthorityDecision
  source_freshness_allowed utc_trusted age_known ttl_seconds age_seconds =
      if not utc_trusted || not age_known
      then decide false "source_freshness_uncertain"
      else if leb ttl_seconds 0 || float_lt (of_nat ttl_seconds) age_seconds
      then decide false "source_stale"
      else decide true "source_fresh"

-- Arguments in the order of the source: issued and current monotonic times, issued and current
-- boot identities, expiry.
unfoldable pub same_boot_authority : ℕ → ℕ → String → String → ℕ → AuthorityDecision
same_boot_authority issued_ns now_ns issued_boot now_boot expires_ns =
    if is_blank issued_boot || is_blank now_boot
    then decide false "boot_identity_missing"
    else if not (str_eq issued_boot now_boot)
    then decide false "reconfirmation_required_after_reboot"
    else if ltb now_ns issued_ns
    then decide false "monotonic_clock_rollback"
    else if leb expires_ns now_ns
    then decide false "same_boot_authority_expired"
    else decide true "same_boot_authority_valid"
