-- ===== src/Config.antt =====
-- crates/wireview-core/src/config.rs: the device configuration, its checks and its binary form.
-- A `u8`, `u16` or `u32` field is a number, an enum a data type in the order of its ordinals, and
-- a `String` the list of its UTF-8 bytes.
pub mod Types
pub mod Ordinals
pub mod Masks
pub mod Numbers
pub mod Bytes
pub mod Validate
pub mod Decode
pub mod Encode
pub mod Equality
pub mod Revision
pub mod Codes
pub mod Sets
pub mod Names
pub mod Layout
pub mod Checked
pub mod Mock
pub mod Items
pub mod Assign
pub mod Lens
