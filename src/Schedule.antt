-- ===== src/Schedule.antt =====
-- frontend/src/features/schedule: schedule items, their store, and the conflicts between them.
pub mod Types
pub mod Conflicts
pub mod Initial
pub mod Store
pub mod Overlaps
pub mod Edits
