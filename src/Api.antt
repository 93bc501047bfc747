-- ===== src/Api.antt =====
-- backend/api/v1/routes/: the routers.
pub mod Cases
pub mod Auth
pub mod Graph
pub mod Entities
pub mod Relationships
pub mod Search
pub mod Notifications
