-- ===== src/Sync.antt =====
-- sync-accumulator.js: the accumulation of /sync responses into one initial response.
pub mod Response
pub mod StateMap
pub mod Timeline
pub mod Pruning
pub mod Room
pub mod Accumulator
pub mod Export
pub mod WellFormed
pub mod RollBack
pub mod Consistency
pub mod Reload
pub mod Receipts
pub mod Invariant
pub mod Transitions
