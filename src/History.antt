-- ===== src/History.antt =====
-- crates/wireview-core/src/history.rs: the telemetry log in the device's flash.
pub mod Entry
pub mod Walk
pub mod Fuel
pub mod Visits
pub mod Parsed
