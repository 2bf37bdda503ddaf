-- ===== src/Inventory.antt =====
-- apps/inventory-service: the stock tables (Tables), the command handler and consumer (Handler), the
-- repository's shared statements (Repository), and the proofs about them.
pub mod Tables
pub mod Handler
pub mod Repository
pub mod Delivery
pub mod Items
pub mod Cases
pub mod Conservation
pub mod Quantities
pub mod Rows
pub mod Sound
pub mod Compensation
