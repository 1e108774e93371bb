-- ===== src/Services.antt =====
-- The planner's services: backend/app/services.
pub mod Outcomes
pub mod LockService
pub mod Writeback
pub mod Versions
pub mod Schedule
