-- ===== src/Replanning.antt =====
-- Replanning: backend/app/engines/replanning.
pub mod Stability
