-- ===== src/Shared.antt =====
-- packages/shared/src/index.ts: the topic and routing-key constants, and the values that cross
-- service boundaries. The logger is not modelled.
mod Constants
mod Numbers
mod Payloads
pub mod Objects
pub mod Schema
pub use Constants.{topics, routing_keys, event_types, privileges}
pub use Numbers.*
pub use Payloads.*
