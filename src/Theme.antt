-- ===== src/Theme.antt =====
-- crates/wireview-core/src/theme.rs: the named bitmap slots in the device's SPI flash. A `u32`
-- or `usize` is a number; the products below stay far under 2 ^ 32.
mod Slots
mod Geometry
unfoldable pub use Slots.*
pub use Geometry.*
