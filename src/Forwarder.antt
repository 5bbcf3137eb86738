-- ===== src/Forwarder.antt =====
-- src/forwarder.rs: one forwarder, with its three loops over one shared state.
pub mod State
pub mod World
pub mod Events
pub mod Receive
pub mod Keepalive
pub mod History
pub mod System
pub mod Locks
