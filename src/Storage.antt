-- ===== src/Storage.antt =====
-- backend/storage/: the query helpers that the routers share.
pub mod Queries
pub mod GraphSync
mod Examples
