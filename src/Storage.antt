-- ===== src/Storage.antt =====
-- src/sentinel_edge/storage: the durable stores.
pub mod Journal
pub mod Spool
pub mod Sources
