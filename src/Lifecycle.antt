-- ===== src/Lifecycle.antt =====
-- The life of a run: every operation of the scheduler and of the API on one run, as steps of a
-- relation.
pub mod Steps
pub mod Status
pub mod Writes
pub mod Stop
pub mod Invariant
pub mod Reach
pub mod Progress
pub mod Identity
