-- ===== src/Scheduler.antt =====
-- internal/services/runservice/scheduler.go: which tasks of a run may start, how a run and its tasks
-- advance, what an executor's report changes, and which executor takes a task.
pub mod Tasks
pub mod Parents
pub mod Runnable
pub mod Advance
pub mod Phase
pub mod Report
pub mod Executors
pub mod Choice
