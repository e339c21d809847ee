-- ===== src/Api.antt =====
-- The HTTP API of the runservice, internal/services/runservice/api/api.go, with the queries of
-- internal/services/runservice/db/db.go that it makes, and its client for the scheduler service.
pub mod Queries
pub mod Handlers
pub mod Client
pub mod Limit
