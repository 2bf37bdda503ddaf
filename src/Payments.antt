-- ===== src/Payments.antt =====
-- apps/payment-service: the payment attempts, the command handler and the consumer (Handler), the
-- repository's shared statements (Repository), and the proofs about them.
pub mod Handler
pub mod Repository
pub mod Delivery
pub mod Settlement
