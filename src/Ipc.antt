-- ===== src/Ipc.antt =====
-- crates/wireview-ipc/src/lib.rs: the messages between the daemon and its clients, how the daemon
-- fills them, and the check of the daemon's version by a client.
pub mod Messages
pub mod Events
pub mod Errors
pub mod Compatibility
