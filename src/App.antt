-- ===== src/App.antt =====
-- backend/main.py: the application.
pub mod RateLimit
