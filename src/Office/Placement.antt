-- ===== src/Office/Placement.antt =====
-- Who sits where: every agent has one desk, zones count their desks, and workers are the active
-- delegations.
pub mod Sums
pub mod Seats
pub mod Workers
pub mod Bounds
