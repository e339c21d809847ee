-- ===== src/System.antt =====
-- The runservice as a whole: any interleaving of the transactions of the scheduler, of the executors'
-- reports and of the API on one database.
pub mod Steps
pub mod Changes
pub mod Others
pub mod Effects
pub mod Snapshots
pub mod Creations
pub mod Refinement
pub mod Retries
pub mod Commits
pub mod Invariant
pub mod Progress
