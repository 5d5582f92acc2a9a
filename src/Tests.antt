-- ===== src/Tests.antt =====
-- The theorems at concrete inputs.
mod Samples
mod Stream
mod Lifetime
mod Replica
mod Drafts
mod Scenes
mod Schedules
mod Provider
mod Animation
