-- ===== src/Bff.antt =====
-- apps/bff: the browser's sessions, and the routes that need one.
pub mod Repository
pub mod Http
pub mod Sessions
pub mod Auth
pub mod Revoked
pub mod Routes
pub mod Kept
pub mod Loading
pub mod Logout
pub mod Fresh
pub mod Members
pub mod Membership
pub mod Admin
pub mod Users
pub mod Creation
pub mod Callback
pub mod Orders
pub mod Seed
pub mod Subjects
