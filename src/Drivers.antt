-- ===== src/Drivers.antt =====
-- src/drivers/: the adapters of the CLI families and their registry.
pub mod Api
pub mod Registry
pub mod Parsers
