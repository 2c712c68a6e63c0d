-- ===== src/Runtime/Timer/Examples.antt =====
-- Tests of timer_policy.py.
use sentinel_edge.Prelude.{is_blank, ◌≡◌, refl}
use sentinel_edge.Runtime.Timer.{same_boot_authority}

after_reboot :
    (same_boot_authority 5 9 "boot-1" "boot-2" 20).reason ≡ "reconfirmation_required_after_reboot"
unfolding same_boot_authority is_blank
after_reboot = refl
