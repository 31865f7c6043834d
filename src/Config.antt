-- ===== src/Config.antt =====
-- internal/config/config.go: the settings that the server reads from its environment.
pub mod Sizes
pub mod Settings
pub mod Load
mod Tests
