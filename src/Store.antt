-- ===== src/Store.antt =====
-- The database of the runservice, internal/services/runservice/db, and the transactions on it of
-- internal/services/runservice/action/action.go and internal/services/runservice/scheduler.go.
pub mod Rows
pub mod Tables
pub mod Db
pub mod Transactions
pub mod Tokens
pub mod Revisions
pub mod Actions
pub mod PhaseChange
pub mod Attempts
pub mod Scheduling
pub mod Creation
pub mod ExecutorApi
pub mod Submission
pub mod Reports
