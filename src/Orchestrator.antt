-- ===== src/Orchestrator.antt =====
-- The orchestrator of the agent: app/orchestrator.
pub mod Status
pub mod Order
pub mod Examples
