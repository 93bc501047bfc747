-- ===== src/Ingestion/Connectors.antt =====
-- backend/ingestion/connectors: what fetches the raw records.
pub mod Web
pub mod Api
pub mod Rss
