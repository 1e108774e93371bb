-- ===== src/Integration.antt =====
-- The connectors of the ERP: backend/app/integration.
pub mod Retry
