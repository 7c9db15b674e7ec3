-- ===== src/Core.antt =====
-- src/core
pub mod Semver
pub mod Env
pub mod Bus
