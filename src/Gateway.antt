-- ===== src/Gateway.antt =====
-- internal/services/gateway: who may do what.
pub mod Auth
pub mod Access
