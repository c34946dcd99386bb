-- ===== src/Backend.antt =====
-- paw_kit/backend
pub mod Lineage
