-- ===== src/Orders/Replies.antt =====
-- What each reply of the saga does to its order, against a table of the four replies.
use node_with_aoth.Prelude.{
  ◌≡◌, refl, ap, ◌∙◌, ◌≢◌, String, true, false, Option, some, List, [], ◌∷◌, ◌++◌, arith, ==_iff,
  ==_ne, append-nil,
}
use node_with_aoth.Shared.{topics, routing_keys, event_types, Payload, get_header, is_text}
use node_with_aoth.Database.Action.{ok, Action, when, ◌>>◌}
use node_with_aoth.Database.Transaction.{no_faults}
use node_with_aoth.Database.Atomicity.{settle}
use node_with_aoth.Messaging.{Message}
use node_with_aoth.Service.Tables.{
  Fresh, OutboxRow, has_event, has_row, recorded, new_row, insert_outbox,
}
use node_with_aoth.Service.Once.{
  consumed_event_id, consumed_routing_key, require_event_id, process_once,
}
use node_with_aoth.Service.Delivery.{process_once-new}
use node_with_aoth.Orders.Tables.{
  pending_payment, confirmed, failed, Order, OrdersDb, update_rows, find_order, is_known, row_id,
  update_order,
}
use node_with_aoth.Orders.Create.{create_event_envelope}
use node_with_aoth.Orders.Saga.{
  payment_payload, release_payload, on_inventory_reserved, on_inventory_rejected,
  on_payment_succeeded, on_payment_failed, handle_saga_event,
}

pub data Reply : Type 0 where
  inventory_reserved inventory_rejected payment_succeeded payment_failed : Reply

abbrev pub type_of : Reply → String
type_of inventory_reserved = event_types.inventory_reserved
type_of inventory_rejected = event_types.inventory_rejected
type_of payment_succeeded = event_types.payment_succeeded
type_of payment_failed = event_types.payment_failed

-- The order after the reply.
abbrev pub updated_by : Reply → Option String → Order → Order
updated_by inventory_reserved reason o = record o { status = pending_payment }
updated_by inventory_rejected reason o = record o { status = failed; failure_reason = reason }
updated_by payment_succeeded reason o = record o { status = confirmed }
updated_by payment_failed reason o = record o { status = failed; failure_reason = reason }

-- The command that the reply leads to: a payment, or the release of the reservation.
abbrev pub commands : Reply → Fresh → Option String → Payload → List OutboxRow
commands inventory_reserved ids c p =
    let e = create_event_envelope ids.event_id routing_keys.process_payment (payment_payload p) c in
    new_row ids.outbox_id topics.payment e.routing_key e.payload e.headers ∷ []
commands payment_failed ids c p =
    let e =
      create_event_envelope ids.event_id routing_keys.release_inventory (release_payload p) c in
    new_row ids.outbox_id topics.inventory e.routing_key e.payload e.headers ∷ []
commands _ ids c p = []

abbrev pub body_of : Reply → Fresh → Option String → Payload → Action OrdersDb (Unit {0})
body_of inventory_reserved ids c p = on_inventory_reserved ids c p
body_of inventory_rejected ids c p = on_inventory_rejected p
body_of payment_succeeded ids c p = on_payment_succeeded p
body_of payment_failed ids c p = on_payment_failed ids c p

-- The schema after the reply `r` with payload `p`.
abbrev pub after_reply : Reply → Fresh → Option String → Payload → OrdersDb → OrdersDb
after_reply r ids c p s = record s {
  store = update_rows p.order_id (updated_by r p.reason) s.store;
  outbox = s.outbox ++ commands r ids c p;
}

module _ (ids : Fresh) (c : Option String) (p : Payload) (s : OrdersDb)
    (fresh : has_row ids.outbox_id s.outbox ≡ false)
    (taken : row_id p.order_id s.store ≡ ok tt) where
  body_run : (r : Reply) → body_of r ids c p s ≡ (ok tt, after_reply r ids c p s)
  unfolding on_inventory_reserved on_inventory_rejected on_payment_succeeded on_payment_failed
      insert_outbox update_order
  body_run inventory_reserved = rw (taken, fresh) refl
  body_run inventory_rejected = rw (taken, append-nil) refl
  body_run payment_succeeded = rw (taken, append-nil) refl
  body_run payment_failed = rw (taken, fresh) refl

-- Of the four tests on the event type exactly one succeeds.
chosen :
    (t : Option String) (r : Reply) (m : Reply → Action OrdersDb (Unit {0})) (s u : OrdersDb)
    → t ≡ some (type_of r)
    → m r s ≡ (ok tt, u)
    → (when (is_text t event_types.inventory_reserved) (m inventory_reserved)
          >> (when (is_text t event_types.inventory_rejected) (m inventory_rejected)
              >> (when (is_text t event_types.payment_succeeded) (m payment_succeeded)
                  >> when (is_text t event_types.payment_failed) (m payment_failed))))
        s
      ≡ (ok tt, u)
chosen t inventory_reserved m s u e h = rw (e, h) refl
chosen t inventory_rejected m s u e h = rw (e, h) refl
chosen t payment_succeeded m s u e h = rw (e, h) refl
chosen t payment_failed m s u e h = rw (e, h) refl

required :
    (i : String) (found : Option String) → found ≡ some i → i ≢ "" → require_event_id found ≡ ok i
required i found e n = rw (e, ==_ne i "" n) refl

module _ (r : Reply) (ids : Fresh) (m : Message) (p : Payload) (s : OrdersDb) (event_id : String)
    (typed : p.event_type ≡ some (type_of r)) (identified : consumed_event_id m p ≡ some event_id)
    (named : event_id ≢ "") (new : has_event event_id s.processed ≡ false)
    (fresh : has_row ids.outbox_id s.outbox ≡ false)
    (taken : row_id p.order_id s.store ≡ ok tt) where
  abbrev c : Option String
  c = get_header "correlationId" m.headers

  abbrev marked : OrdersDb
  marked = recorded event_id m.topic (consumed_routing_key m) s

  processed_reply :
      process_once no_faults event_id m.topic (consumed_routing_key m) (body_of r ids c p) s
      ≡ (ok tt, after_reply r ids c p marked)
  processed_reply =
      process_once-new event_id m.topic (consumed_routing_key m) (body_of r ids c p) s new
      ∙ ap (settle s) (body_run ids c p marked fresh taken r)

  -- A reply whose event is new and has an id that is not empty, whose order id the column takes,
  -- handled under a fresh outbox id and with no failure outside the handler, is recorded and has
  -- the effect that the table gives for its type: the order of its payload takes the status (and
  -- failure reason) of the table, and the outbox gets the command of the table, or none.
  handle_saga_event-reply :
      handle_saga_event no_faults ids m p s ≡ (ok tt, after_reply r ids c p marked)
  unfolding handle_saga_event
  handle_saga_event-reply = rw (required event_id (consumed_event_id m p) identified named) (
      chosen p.event_type r
        (λ k. process_once no_faults event_id m.topic (consumed_routing_key m) (body_of k ids c p))
        s _ typed processed_reply)

find_order-is_known :
    (i : String) (os : List Order) (o : Order)
    → find_order i os ≡ some o
    → is_known (some i) os ≡ true
find_order-is_known i [] o e = absurd (cc)
find_order-is_known i (x ∷ os) o e =
    ground (arith, ==_iff x.id i, ==_iff i x.id, find_order-is_known i os o)

-- The update reaches the order of the payload and no other.
find_order-update_self :
    (i : String) (g : Order → Order) (os : List Order) (o : Order)
    → ((x : Order) → (g x).id ≡ x.id)
    → find_order i os ≡ some o
    → find_order i (update_rows (some i) g os) ≡ some (g o)
find_order-update_self i g [] o kept e = cc
find_order-update_self i g (x ∷ os) o kept e = ground (
  arith,
  ==_iff x.id i,
  ==_iff i x.id,
  ==_iff (g x).id i,
  kept x,
  find_order-update_self i g os o kept,
)

find_order-update_other :
    (i j : String) (g : Order → Order) (os : List Order)
    → ((x : Order) → (g x).id ≡ x.id)
    → j ≢ i
    → find_order j (update_rows (some i) g os) ≡ find_order j os
find_order-update_other i j g [] kept n = refl
find_order-update_other i j g (x ∷ os) kept n = ground (
  arith,
  ==_iff x.id j,
  ==_iff i x.id,
  ==_iff (g x).id j,
  kept x,
  find_order-update_other i j g os kept n,
)

reply_keeps_id :
    (r : Reply) (reason : Option String) (o : Order) → (updated_by r reason o).id ≡ o.id
reply_keeps_id inventory_reserved reason o = refl
reply_keeps_id inventory_rejected reason o = refl
reply_keeps_id payment_succeeded reason o = refl
reply_keeps_id payment_failed reason o = refl

module _ (r : Reply) (ids : Fresh) (m : Message) (p : Payload) (s : OrdersDb) (event_id : String)
    (typed : p.event_type ≡ some (type_of r)) (identified : consumed_event_id m p ≡ some event_id)
    (named : event_id ≢ "") (new : has_event event_id s.processed ≡ false)
    (fresh : has_row ids.outbox_id s.outbox ≡ false) (i : String) (o : Order)
    (about : p.order_id ≡ some i) (known : find_order i s.store ≡ some o) where
  -- A new reply about a known order, under an event id that is not empty and a fresh outbox id
  -- and with no failure outside the handler, moves that order to the status of its type:
  -- PENDING_PAYMENT after a reservation, FAILED with the reason of the reply after a rejection or
  -- a failed payment, CONFIRMED after a payment. No other order changes.
  pub handle_saga_event-orders :
      let t = (handle_saga_event no_faults ids m p s).1 in
      (find_order i t.store ≡ some (updated_by r p.reason o))
      × ((j : String) → j ≢ i → find_order j t.store ≡ find_order j s.store)
  handle_saga_event-orders =
      rw
        (
          handle_saga_event-reply r ids m p s event_id typed identified named new fresh
              (rw (about, find_order-is_known i s.store o known) refl),
          about,
        )
        (
          find_order-update_self i (updated_by r p.reason) s.store o (reply_keeps_id r p.reason)
              known,
          λ j n.
              find_order-update_other i j (updated_by r p.reason) s.store
                (reply_keeps_id r p.reason) n,
        )
