-- ===== src/Analyzers.antt =====
-- The analyzers of the agent: app/analyzers.
pub mod Risk
pub mod Bands
pub mod Examples
