-- ===== src/Draft.antt =====
-- frontend/src/features/agent-config: the drafts of skill changes, kept in the browser's storage.
pub mod Store
pub mod Blueprint
pub mod Effective
mod Tidy
mod Cancel
pub mod Lists
pub mod Toggle
pub mod Persistence
pub mod Staging
pub mod Preview
