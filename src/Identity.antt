-- ===== src/Identity.antt =====
-- The tables of the schema `identity`, and packages/auth: who a user is and what the user may do.
pub mod Tables
pub mod Authorizations
pub mod Rows
pub mod Granted
pub mod Hex
pub mod Secrets
pub mod Tokens
