-- ===== src/Tests.antt =====
-- The theorems at concrete inputs, and runs of the code on sample data.
mod Samples
mod Transactions
mod Outbox
mod Creation
mod Saga
mod Stock
mod Payment
mod Gate
mod Journey
mod Cipher
mod Browser
mod Members
