-- ===== src/Daemon.antt =====
-- crates/maschined: the daemon.
pub mod Sink
pub mod Nav
pub mod Session
pub mod Manager
pub mod Osc
pub mod Broadcast
pub mod Ops
pub mod Events
pub mod Tasks
pub mod Tests
pub mod Ipc
