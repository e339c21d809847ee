-- ===== src/ConfigStore.antt =====
-- The config store, internal/services/configstore: the references to projects and project groups, and the
-- actions on secrets.
pub mod Refs
pub mod Secrets
pub mod Names
pub mod Kept
pub mod Unique
