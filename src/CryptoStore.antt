-- ===== src/CryptoStore.antt =====
-- crypto/store/memory-crypto-store.js: the Olm sessions, their problems, and the devices that were
-- told of an error.
pub mod Sessions
pub mod Notified
pub mod Problems
pub mod Lookup
