-- ===== src/Runtime.antt =====
-- sentinel_edge/runtime: the workload runtime (component 3).
pub mod Timer
pub mod Watchdog
pub mod DeadLetter
pub mod Opportunities
pub mod Scheduler
