-- ===== src/Tests.antt =====
-- Runs on small inputs, and the theorems applied to them.
mod Accumulating
mod Timers
mod Requests
mod Queues
mod Store
mod Filters
mod Rules
mod Windows
mod Devices
mod Sets
