-- ===== src/Examples.antt =====
-- Runs of the models on small inputs, and each theorem at a concrete input.
pub mod Plant
pub mod Calendars
pub mod Orders
pub mod Priorities
pub mod Dispatch
pub mod Services
pub mod Replans
pub mod Timelines
pub mod Schedules
pub mod Retries
pub mod Eligibilities
pub mod Blockers
pub mod Frozen
pub mod Slots
pub mod Assignments
