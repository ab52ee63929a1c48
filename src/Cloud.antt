-- ===== src/Cloud.antt =====
-- The cloud service.
pub mod Dict
pub mod Filed
pub mod Service
pub mod Repository
pub mod Examples
pub mod Handovers
pub mod Bounded
pub mod Inventory
pub mod Exchange
pub mod Evidence
pub mod Finishing
