-- ===== src/Orders.antt =====
-- apps/order-service: the table (Tables), creating orders (Create), the saga's handler and consumer
-- (Saga), the HTTP controller (Controller), the ways in which the schema changes (Steps), and the
-- proofs about them.
pub mod Tables
pub mod Create
pub mod Saga
pub mod Delivery
pub mod Outbox
pub mod Keeps
pub mod Steps
pub mod Unique
pub mod Idempotency
pub mod Success
pub mod Controller
pub mod Retry
pub mod Replies
pub mod Listing
