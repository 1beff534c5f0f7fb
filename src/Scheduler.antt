-- ===== src/Scheduler.antt =====
-- scheduler.js: queues of events that are sent one at a time, with retries.
pub mod Queues
pub mod Retry
pub mod Counts
pub mod Invariant
pub mod Steps
