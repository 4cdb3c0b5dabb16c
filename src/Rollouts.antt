-- ===== src/Rollouts.antt =====
-- internal/rollouts: planning a rollout, and the life of its execution.
pub mod Lifecycle
pub mod Planner
pub mod Governance
