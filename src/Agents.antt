-- ===== src/Agents.antt =====
-- src/agents/: the agents' states, their controllers and the manager.
pub mod Types
pub mod Output
pub mod Manager
pub mod Exec
pub mod Feed
pub mod Pty
pub mod Ws
pub mod Http
