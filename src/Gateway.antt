-- ===== src/Gateway.antt =====
-- apps/api-gateway: who may pass (Authz).
pub mod Authz
pub mod Access
pub mod Forward
