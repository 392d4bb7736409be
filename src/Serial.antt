-- ===== src/Serial.antt =====
-- `SerialBackend` of src/backend.rs: the calls of the port, the pages of the flash, the replacement
-- of a theme asset, and the methods of `DeviceBackend`. The other files prove.
pub mod Port
pub mod Errors
pub mod Spi
pub mod Transaction
pub mod Session
pub mod Device
pub mod Outcomes
pub mod Firmware
pub mod Memory
pub mod Exchanges
pub mod Ranges
pub mod Installs
pub mod Assets
pub mod Fuel
pub mod Frames
