-- ===== src/Scheduling.antt =====
-- The rule-based scheduler: backend/app/engines/scheduling.
pub mod Batching
pub mod Sequences
pub mod Candidates
pub mod Locks
pub mod Placement
pub mod Timeline
pub mod State
pub mod Frozen
pub mod Setup
pub mod Slots
pub mod Assignment
