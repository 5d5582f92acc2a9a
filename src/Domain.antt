-- ===== src/Domain.antt =====
-- The domain contracts of frontend/src/types: one record for each interface, with its fields, and
-- one data type for each union of string literals. An optional field is an `Option`.
pub mod Agent
pub mod Runtime
pub mod Task
pub mod Approval
pub mod MissionControl
