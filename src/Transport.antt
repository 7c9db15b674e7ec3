-- ===== src/Transport.antt =====
-- src/transport: clients, their subscriptions and the JSON-RPC dispatcher.
pub mod Types
pub mod Sessions
pub mod Rpc
pub mod Methods
