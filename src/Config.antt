-- ===== src/Config.antt =====
-- internal/config/config.go: the configuration, its rule exceptions, migration and settings.
pub mod Defs
pub mod Exceptions
pub mod Migration
pub mod Settings
pub mod Project
pub mod Load
