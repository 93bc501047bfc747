-- ===== src/Plugins.antt =====
-- backend/plugins/registry.py and backend/plugins/loader.py: the registry of plugins, and the
-- loader that fills it at startup.
pub mod Registry
pub mod Loader
pub mod Coordination
mod Examples
