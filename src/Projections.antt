-- ===== src/Projections.antt =====
-- src/sentinel_edge/projections: views of the incidents that clients follow.
pub mod Buffer
pub mod Service
pub mod Examples
