-- ===== src/Cloud/Service.antt =====
-- The calls on InMemoryRepository together: what a history of them leaves.
pub mod Writes
pub mod Claims
pub mod Untouched
pub mod Others
pub mod Ingested
pub mod Cases
pub mod History
pub mod Finalization
pub mod States
pub mod Grants
pub mod Settled
