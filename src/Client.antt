-- ===== src/Client.antt =====
-- crates/wireview-gui/src/client.rs: what the GUI makes of the daemon's answers, and how it
-- downloads the history.
pub mod Errors
pub mod Snapshot
pub mod Download
pub mod Telemetry
pub mod Lease
pub mod Honest
