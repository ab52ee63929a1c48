-- ===== src/Policies.antt =====
-- The policy engine of the agent: app/policies/engine.py.
pub mod Conditions
pub mod Engine
pub mod Budget
pub mod Meaning
pub mod Answers
pub mod Decided
pub mod Negation
pub mod Examples
