-- ===== src/Config.antt =====
-- The project's own package, config.
pub mod Healthchecks
