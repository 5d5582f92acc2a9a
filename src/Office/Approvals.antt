-- ===== src/Office/Approvals.antt =====
-- The approval pod, the task that an agent is shown at, and the collaboration items.
pub mod Risks
pub mod Oldest
pub mod Tasks
pub mod Shared
