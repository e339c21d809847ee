-- ===== src/Action.antt =====
-- internal/services/runservice/action/action.go: what the API does to a run: create it, change its
-- phase, stop it, approve or annotate a task. Each is the part of a transaction between the reads and
-- the writes of the database.
pub mod Create
pub mod Change
pub mod Fetch
pub mod Request
pub mod Recreate
pub mod SpecData
