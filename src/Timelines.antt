-- ===== src/Timelines.antt =====
-- models/event-timeline.js and timeline-window.js: linked timelines of events, and a window on them.
pub mod Timeline
pub mod Index
pub mod Chain
pub mod Standing
pub mod Moves
pub mod Retreats
pub mod Window
pub mod Contents
pub mod Places
pub mod Trims
pub mod Limits
pub mod Extends
pub mod Slices
pub mod Reading
pub mod Openings
pub mod Sets
pub mod Ownership
pub mod Adding
pub mod Known
pub mod Fresh
pub mod Paging
