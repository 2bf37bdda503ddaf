-- ===== src/Service.antt =====
-- What the three back-end services share: the `outbox` and `processed_events` tables of each
-- schema (Tables), the outbox publisher (Outbox), the frame of a handler (Once), and the
-- proofs about them.
pub mod Tables
pub mod Outbox
pub mod Once
pub mod Delivery
pub mod Consumer
pub mod Keeps
pub mod Publishing
pub mod Batch
pub mod Pending
pub mod Loss
pub mod Forwarding
