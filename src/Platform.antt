-- ===== src/Platform.antt =====
-- The three back-end services and Kafka together: the state and its steps (System), what a message
-- says about its order (Said), what the rows record (Records), and the proofs of what holds of all
-- services at once.
pub mod System
pub mod Said
pub mod Records
pub mod Ordering
pub mod Reservations
pub mod Stocking
pub mod Paying
pub mod Invariant
pub mod Safety
pub mod Entry
