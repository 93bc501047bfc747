-- ===== src/Normalization.antt =====
-- backend/normalization: what makes the fields of a raw record uniform.
pub mod Fields
