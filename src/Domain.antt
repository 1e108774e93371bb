-- ===== src/Domain.antt =====
-- The data model of backend/app/domain.
pub mod Window
pub mod Keys
pub mod Status
pub mod Machines
pub mod Orders
pub mod Overlays
pub mod Results
pub mod Snapshot
