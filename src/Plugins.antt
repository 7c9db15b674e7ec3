-- ===== src/Plugins.antt =====
-- src/plugins
pub mod Sort
pub mod Life
