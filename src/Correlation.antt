-- ===== src/Correlation.antt =====
-- The correlation of entities, backend/correlation.
pub mod Temporal
pub mod Contextual
