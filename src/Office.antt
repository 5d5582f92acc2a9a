-- ===== src/Office.antt =====
-- frontend/src/features/office: the layout engine that projects agents, delegations, approvals and
-- tasks into a scene.
pub mod Types
pub mod Rooms
pub mod Work
pub mod Desks
pub mod Summaries
pub mod Scene
pub mod Animation
pub mod Placement
pub mod Approvals
