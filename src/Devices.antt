-- ===== src/Devices.antt =====
-- The device lists of crypto/DeviceList.js.
pub mod Keys
pub mod Trust
pub mod Identities
pub mod Serialiser
pub mod Queue
pub mod Settling
pub mod Tracking
pub mod Refresh
pub mod Downloads
