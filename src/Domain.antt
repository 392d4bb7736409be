-- ===== src/Domain.antt =====
-- crates/wireview-core/src/domain.rs: the errors, the telemetry and the state that the daemon
-- publishes. A clock reading is a number of milliseconds, a port is the path of its tty.
pub mod Error
pub mod Telemetry
pub mod Connection
