-- ===== src/Mapper.antt =====
-- frontend/src/api/mappers: from the wire format of the backend to the domain.
pub mod Common
pub mod Agent
pub mod Runtime
pub mod MissionControl
pub mod Task
pub mod Approval
