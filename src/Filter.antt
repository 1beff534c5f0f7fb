-- ===== src/Filter.antt =====
-- filter-component.js: which events a filter lets through.
pub mod Component
pub mod Meaning
