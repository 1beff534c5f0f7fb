-- ===== src/Realtime.antt =====
-- realtime-callbacks.js: a replacement of `setTimeout` that keeps its own list of callbacks.
pub mod Callbacks
pub mod Search
pub mod Sorted
pub mod Laws
pub mod Runs
