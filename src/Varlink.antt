-- ===== src/Varlink.antt =====
-- src/varlink.rs: the methods of the service, each over the handle of the manager.
pub mod Service
pub mod Methods
pub mod Settings
pub mod Guards
