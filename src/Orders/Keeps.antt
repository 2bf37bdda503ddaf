-- ===== src/Orders/Keeps.antt =====
-- What order-service keeps when a message is delivered: what each reply's branch keeps.
use node_with_aoth.Prelude.{◌≡◌, sym, ap, subst, String, Option, none, some, List, true, ==_iff}
use node_with_aoth.Shared.{Payload, Headers, get_header, is_text}
use node_with_aoth.Database.Action.{Result, ok, err, when}
use node_with_aoth.Database.Transaction.{Faults}
use node_with_aoth.Messaging.{Message, parse_value}
use node_with_aoth.Service.Tables.{Fresh, insert_outbox}
use node_with_aoth.Service.Once.{consumed_event_id, consumed_routing_key, process_once}
use node_with_aoth.Service.Keeps.{
  Keeps, IgnoresMarks, Keeps-when, Keeps-then, Keeps-process_once, Keeps-require_event_id,
  Keeps-each_message, store-insert_outbox,
}
use node_with_aoth.Orders.Tables.{
  Status, pending_payment, confirmed, Order, OrdersDb, set_status, set_failed, update_rows, row_id,
  put_orders, update_order,
}
use node_with_aoth.Orders.Saga.{
  on_inventory_reserved, on_inventory_rejected, on_payment_succeeded, on_payment_failed,
  handle_saga_event, order_saga_consumer,
}
use node_with_aoth.Orders.Replies.{
  Reply, inventory_reserved, inventory_rejected, payment_succeeded, payment_failed, type_of,
  body_of,
}

-- An update that is refused changes nothing.
pub Keeps-update_order {κ} :
    (P : OrdersDb → Type κ) (i : Option String) (g : Order → Order)
    → ((s : OrdersDb) → P s → P (record s { store = update_rows i g s.store }))
    → Keeps P (update_order i g)
unfolding update_order
Keeps-update_order P i g keeps = record { at = λ s h. by_id s (row_id i s.store) h }
  where
    by_id :
        (s : OrdersDb) (r : Result (Unit {0}))
        → P s
        → P (put_orders r (update_rows i g s.store) s).1
    by_id s (ok x) h = keeps s h
    by_id s (err e) h = h

is_text-some : (o : Option String) (t : String) → is_text o t ≡ true → o ≡ some t
is_text-some (some s) t e = ap some ((==_iff s t).0 e)
is_text-some none t e = absurd (cc)

module _ {κ} (P : OrdersDb → Type κ) (marked : IgnoresMarks P) where
  handler-Keeps :
      (f : Faults) (ids : Fresh) (m : Message) (p : Payload)
      → ((r : Reply)
          → p.event_type ≡ some (type_of r)
          → Keeps P (body_of r ids (get_header "correlationId" m.headers) p))
      → Keeps P (handle_saga_event f ids m p)
  unfolding handle_saga_event
  handler-Keeps f ids m p keeps = Keeps-require_event_id (consumed_event_id m p) (λ i.
      Keeps-then (branch i inventory_reserved) (
        Keeps-then (branch i inventory_rejected)
          (Keeps-then (branch i payment_succeeded) (branch i payment_failed))))
    where
      branch :
          (i : String) (r : Reply)
          → Keeps P (
              when (is_text p.event_type (type_of r)) (
                process_once f i m.topic
                  (consumed_routing_key m)
                  (body_of r ids (get_header "correlationId" m.headers) p)))
      branch i r = Keeps-when (is_text p.event_type (type_of r)) (λ e.
          Keeps-process_once f i m.topic (consumed_routing_key m) marked
            (keeps r (is_text-some p.event_type (type_of r) e)))

  -- One delivery of a message.
  pub order_saga_consumer-Holds :
      (f : Faults) (ids : Fresh) (m : Message)
      → ((p : Payload) (r : Reply)
          → parse_value m.value ≡ ok p
          → p.event_type ≡ some (type_of r)
          → Keeps P (body_of r ids (get_header "correlationId" m.headers) p))
      → Keeps P (order_saga_consumer f ids m)
  unfolding order_saga_consumer
  order_saga_consumer-Holds f ids m keeps =
      Keeps-each_message _ (handle_saga_event f ids) m
        (λ p e _. handler-Keeps f ids m p (λ r. keeps p r e))

-- What an update of one row's status keeps of the orders.
module _ {κ} (P : List Order → Type κ)
    (status : (i : Option String) (s : Status) (os : List Order)
      → P os
      → P (update_rows i (set_status s) os))
    (failure : (i : Option String) (r : Option String) (os : List Order)
      → P os
      → P (update_rows i (set_failed r) os)) where
  updates :
      (i : Option String) (g : Order → Order)
      → ((os : List Order) → P os → P (update_rows i g os))
      → Keeps (λ (s : OrdersDb). P s.store) (update_order i g)
  updates i g keeps = Keeps-update_order (λ (s : OrdersDb). P s.store) i g (λ s h. keeps s.store h)

  sends :
      (i topic key : String) (q : Payload) (h : Headers)
      → Keeps (λ (s : OrdersDb). P s.store) (insert_outbox i topic key q h)
  sends i topic key q h = record { at = λ s v. subst P (sym (store-insert_outbox _ _ _ _ _ _)) v }

  body-Keeps :
      (r : Reply) (ids : Fresh) (c : Option String) (p : Payload)
      → Keeps (λ (s : OrdersDb). P s.store) (body_of r ids c p)
  unfolding on_inventory_reserved on_inventory_rejected on_payment_succeeded on_payment_failed
  body-Keeps inventory_reserved ids c p =
      Keeps-then (updates p.order_id (set_status pending_payment) (status _ _)) (sends _ _ _ _ _)
  body-Keeps inventory_rejected ids c p = updates p.order_id (set_failed p.reason) (failure _ _)
  body-Keeps payment_succeeded ids c p = updates p.order_id (set_status confirmed) (status _ _)
  body-Keeps payment_failed ids c p =
      Keeps-then (updates p.order_id (set_failed p.reason) (failure _ _)) (sends _ _ _ _ _)

  -- One delivery, of any message.
  pub order_saga_consumer-Keeps :
      (f : Faults) (ids : Fresh) (m : Message)
      → Keeps (λ (s : OrdersDb). P s.store) (order_saga_consumer f ids m)
  order_saga_consumer-Keeps f ids m =
      order_saga_consumer-Holds (λ (s : OrdersDb). P s.store) (λ i t k s h. h) f ids m
        (λ p r _ _. body-Keeps r ids (get_header "correlationId" m.headers) p)
