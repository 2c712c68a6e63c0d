-- ===== src/Security.antt =====
-- Security (src/sentinel_edge/security).
pub mod Keys
pub mod Principals
pub mod Authentication
pub mod Authorization
pub mod Examples
