-- ===== src/Protocol.antt =====
-- src/protocol.rs: the commands and responses of the USB protocol.
pub mod Commands
pub mod Responses
pub mod Faults
