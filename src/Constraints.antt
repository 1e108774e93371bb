-- ===== src/Constraints.antt =====
-- Which machines can run an operation: backend/app/engines/constraints.
pub mod Pins
pub mod Hard
pub mod Soft
pub mod Eligibility
pub mod Readiness
