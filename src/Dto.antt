-- ===== src/Dto.antt =====
-- The wire format of the backend, frontend/src/api/dto. A field that is absent or `null` is `none`;
-- numbers may be anything that JavaScript holds, except where the code uses them unchecked.
pub mod Agent
pub mod Runtime
pub mod MissionControl
pub mod Task
pub mod Approval
