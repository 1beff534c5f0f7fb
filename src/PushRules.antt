-- ===== src/PushRules.antt =====
-- pushprocessor.js: which push rule an event matches, and what it makes the client do.
pub mod Texts
pub mod Globs
pub mod Conditions
pub mod Rules
pub mod ActionLists
pub mod Defaults
pub mod Meaning
pub mod Matching
pub mod SharedGlobs
