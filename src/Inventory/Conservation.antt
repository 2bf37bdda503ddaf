-- ===== src/Inventory/Conservation.antt =====
-- No command creates or loses stock.
use node_with_aoth.Prelude.{
  ◌≡◌, refl, ◌∙◌, inl, inr, String, Bool, true, false, some, List, if◌then◌else◌,
}
use node_with_aoth.Prelude.Int.{ℤ}
use node_with_aoth.Shared.{Payload, event_types, is_text}
use node_with_aoth.Database.Action.{ok}
use node_with_aoth.Database.Transaction.{Faults}
use node_with_aoth.Messaging.{Message, parse_value, message_routing_key, passes_over}
use node_with_aoth.Service.Tables.{Fresh}
use node_with_aoth.Service.Once.{consumed_event_id, consumed_routing_key, process_once}
use node_with_aoth.Service.Keeps.{
  Keeps, IgnoresMarks, Keeps-process_returned, Keeps-require_event_id, Keeps-each_message,
}
use node_with_aoth.Inventory.Tables.{Stock, InventoryDb, shift_item, unshift_item}
use node_with_aoth.Inventory.Handler.{
  release_inventory, reserve_inventory, handle_inventory_command, inventory_keys,
  inventory_consumer,
}
use node_with_aoth.Inventory.Items.{
  totals, shift_item-total, unshift_item-total, update_items-totals,
}
use node_with_aoth.Inventory.Cases.{reserve_inventory-Reserved, release_inventory-Released}

-- A property of the schema that both halves of the handler keep when they return, for the payload
-- of the message, is kept by every delivery of the message.
module _ {κ} (P : InventoryDb → Type κ) (marked : IgnoresMarks P) (m : Message)
    (reserve : (ids : Fresh) (p : Payload) (s t : InventoryDb)
      → parse_value m.value ≡ ok p
      → passes_over inventory_keys (message_routing_key m) ≡ false
      → is_text p.event_type event_types.release_inventory ≡ false
      → P s
      → reserve_inventory ids p s ≡ (ok tt, t)
      → P t)
    (release : (p : Payload) (s t : InventoryDb)
      → parse_value m.value ≡ ok p
      → is_text p.event_type event_types.release_inventory ≡ true
      → P s
      → release_inventory p s ≡ (ok tt, t)
      → P t) where
  command-Keeps :
      (f : Faults) (ids : Fresh) (p : Payload)
      → parse_value m.value ≡ ok p
      → passes_over inventory_keys (message_routing_key m) ≡ false
      → (i : String) (b : Bool) → is_text p.event_type event_types.release_inventory ≡ b
      → Keeps P (
          if b
          then process_once f i m.topic (consumed_routing_key m) (release_inventory p)
          else process_once f i m.topic (consumed_routing_key m) (reserve_inventory ids p))
  command-Keeps f ids p e k i true b =
      Keeps-process_returned f i m.topic (consumed_routing_key m) marked (λ s t. release p s t e b)
  command-Keeps f ids p e k i false b =
      Keeps-process_returned f i m.topic (consumed_routing_key m) marked
        (λ s t. reserve ids p s t e k b)

  pub inventory_consumer-Holds : (f : Faults) (ids : Fresh) → Keeps P (inventory_consumer f ids m)
  unfolding inventory_consumer handle_inventory_command
  inventory_consumer-Holds f ids = Keeps-each_message _ (handle_inventory_command f ids) m (λ p e k.
      Keeps-require_event_id (consumed_event_id m p) (λ i.
        command-Keeps f ids p e k i (is_text p.event_type event_types.release_inventory) refl))

-- The same for a property of the stock alone.
pub inventory_consumer-Keeps {κ} :
    (P : Stock → Type κ) (m : Message)
    → ((ids : Fresh) (p : Payload) (s t : InventoryDb)
        → parse_value m.value ≡ ok p
        → P s.store
        → reserve_inventory ids p s ≡ (ok tt, t)
        → P t.store)
    → ((p : Payload) (s t : InventoryDb)
        → P s.store
        → release_inventory p s ≡ (ok tt, t)
        → P t.store)
    → (f : Faults) (ids : Fresh)
    → Keeps (λ (s : InventoryDb). P s.store) (inventory_consumer f ids m)
inventory_consumer-Keeps P m reserve release =
    inventory_consumer-Holds (λ (s : InventoryDb). P s.store) (λ i t k s h. h) m
      (λ ids p s t e _ _. reserve ids p s t e) (λ p s t _ _. release p s t)

module _ (ts : List (String × ℤ)) where
  reserve_totals :
      (ids : Fresh) (p : Payload) (s t : InventoryDb)
      → totals s.store.items ≡ ts
      → reserve_inventory ids p s ≡ (ok tt, t)
      → totals t.store.items ≡ ts
  reserve_totals ids p s t h e = elim (reserve_inventory-Reserved ids p s t e) [
    | inl (short, same) ↦ rw same h
    | inr (enough, taken) ↦ rw taken.result (
        update_items-totals (shift_item taken.quantity) (shift_item-total taken.quantity) p.item_sku
          s.store.items taken.items taken.updated
        ∙ h)
  ]

  release_totals :
      (p : Payload) (s t : InventoryDb)
      → totals s.store.items ≡ ts
      → release_inventory p s ≡ (ok tt, t)
      → totals t.store.items ≡ ts
  release_totals p s t h e = elim (release_inventory-Released p s t e) [
    | inl (missing, same) ↦ rw same h
    | inr r ↦ rw r.result (
        update_items-totals (unshift_item r.reservation.quantity)
          (unshift_item-total r.reservation.quantity) (some r.reservation.sku) s.store.items r.items
          r.updated
        ∙ h)
  ]

-- Whatever message is delivered to inventory-service, and whatever fails in it: the list of SKUs
-- is the same afterwards, and of each SKU the available and the reserved units together are as
-- many as before.
pub inventory_consumer-totals :
    (f : Faults) (ids : Fresh) (m : Message) (s : InventoryDb)
    → totals (inventory_consumer f ids m s).1.store.items ≡ totals s.store.items
inventory_consumer-totals f ids m s =
    (inventory_consumer-Keeps (λ (st : Stock). totals st.items ≡ totals s.store.items) m
        (λ n p u t _. reserve_totals (totals s.store.items) n p u t)
        (release_totals (totals s.store.items)) f ids).at
      s refl
