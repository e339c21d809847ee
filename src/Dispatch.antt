-- ===== src/Dispatch.antt =====
-- The scheduler service, internal/services/scheduler/scheduler.go: it starts the first queued run of
-- each group that has no running run, and approves tasks. Its calls reach the handlers of the API one
-- after the other, without other transactions between them.
pub mod Schedule
pub mod Approve
pub mod Ordering
pub mod Paging
pub mod Pages
pub mod Start
pub mod Fifo
pub mod Liveness
pub mod OneApproval
