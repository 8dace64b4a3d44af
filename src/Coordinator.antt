-- ===== src/Coordinator.antt =====
-- internal/coordinator: what the coordinator makes of devices and their values.
pub mod Decoders
pub mod Devices
pub mod DeviceDb
pub mod Interview
pub mod Properties
pub mod Reports
pub mod Events
mod Examples
