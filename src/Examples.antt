-- ===== src/Examples.antt =====
-- Concrete runs of the library at small inputs.
pub mod Fixtures
pub mod Codecs
pub mod Logs
pub mod Turns
pub mod Changes
mod Devices
mod Serial
mod Items
mod Client
mod Requests
mod Graph
