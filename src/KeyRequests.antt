-- ===== src/KeyRequests.antt =====
-- Outgoing room key requests: the store of memory-crypto-store.js and the state machine of
-- OutgoingRoomKeyRequestManager.js.
pub mod Store
pub mod Manager
pub mod Lookup
pub mod Bodies
pub mod Diagram
pub mod Objects
pub mod Writes
pub mod Sending
pub mod Targets
