-- ===== src/Shared/Constants.antt =====
-- The `topics` and `routingKeys` objects of packages/shared/src/index.ts, and the event type
-- names that the services write into payloads.
use node_with_aoth.Prelude.{String}

pub record Topics : Type 0 where
  pub order : String
  pub inventory : String
  pub payment : String

abbrev pub topics : Topics
topics = record {
  order = "order.events";
  inventory = "inventory.events";
  payment = "payment.events";
}

pub record RoutingKeys : Type 0 where
  pub order_created : String
  pub reserve_inventory : String
  pub inventory_reserved : String
  pub inventory_rejected : String
  pub process_payment : String
  pub payment_succeeded : String
  pub payment_failed : String
  pub release_inventory : String

abbrev pub routing_keys : RoutingKeys
routing_keys = record {
  order_created = "order.created";
  reserve_inventory = "inventory.reserve.requested";
  inventory_reserved = "inventory.reserved";
  inventory_rejected = "inventory.rejected";
  process_payment = "payment.process.requested";
  payment_succeeded = "payment.succeeded";
  payment_failed = "payment.failed";
  release_inventory = "inventory.release.requested";
}

pub record EventTypes : Type 0 where
  pub reserve_inventory_requested : String
  pub inventory_reserved : String
  pub inventory_rejected : String
  pub process_payment : String
  pub payment_succeeded : String
  pub payment_failed : String
  pub release_inventory : String

abbrev pub event_types : EventTypes
event_types = record {
  reserve_inventory_requested = "ReserveInventoryRequested";
  inventory_reserved = "InventoryReserved";
  inventory_rejected = "InventoryRejected";
  process_payment = "ProcessPayment";
  payment_succeeded = "PaymentSucceeded";
  payment_failed = "PaymentFailed";
  release_inventory = "ReleaseInventory";
}

-- The privilege codes that the gateway and the BFF ask for.
pub record Privileges : Type 0 where
  pub read : String
  pub modify : String
  pub order_create : String

abbrev pub privileges : Privileges
privileges = record { read = "READ"; modify = "MODIFY"; order_create = "ORDER_CREATE" }
