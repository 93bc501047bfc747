-- ===== src/Ingestion.antt =====
-- backend/ingestion: what the processor of ingested records computes and stores.
pub mod Records
pub mod Store
pub mod Processor
mod Examples
pub mod Connectors
pub mod Tasks
