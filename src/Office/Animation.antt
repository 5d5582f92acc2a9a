-- ===== src/Office/Animation.antt =====
-- frontend/src/features/office/animation: what the characters of a scene are shown to do, and how they
-- travel.
pub mod Reals
pub mod Behavior
pub mod Honesty
pub mod Postures
pub mod Navigation
pub mod Controller
