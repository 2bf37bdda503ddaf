-- ===== src/Platform/Ordering.antt =====
-- The part of order-service in the whole: what its orders and its messages rest on.
use node_with_aoth.Prelude.{
  ◌≡◌, refl, ◌≢◌, sym, subst, ◌⊎◌, inl, inr, String, Bool, true, false, Option, none, some, List,
  [], ◌∷◌, All, All-append, arith, ==_iff, if◌then◌else◌,
}
use node_with_aoth.Shared.{Payload, Headers, is_text, get_header}
use node_with_aoth.Database.Action.{ok}
use node_with_aoth.Database.Transaction.{Faults}
use node_with_aoth.Messaging.{Message, json-read, parse_value, message_routing_key, publish_event}
use node_with_aoth.Service.Tables.{Fresh, new_row, insert_outbox}
use node_with_aoth.Service.Outbox.{row_message}
use node_with_aoth.Service.Keeps.{Keeps, Keeps-then, store-insert_outbox}
use node_with_aoth.Service.Forwarding.{AllRows, AllRows-append, outbox-insert_outbox}
use node_with_aoth.Orders.Tables.{
  Status, pending_payment, confirmed, failed, Order, OrdersDb, set_status, set_failed, update_rows,
  order_row, update_order,
}
use node_with_aoth.Orders.Create.{
  Runtime, CreateInput, create_event_envelope, create_if_new, new_order,
}
use node_with_aoth.Orders.Saga.{
  on_inventory_reserved, on_inventory_rejected, on_payment_succeeded, on_payment_failed,
  order_saga_consumer,
}
use node_with_aoth.Orders.Outbox.{CreatedIn, if_new-CreatedIn}
use node_with_aoth.Orders.Replies.{
  Reply, inventory_reserved, inventory_rejected, payment_succeeded, payment_failed, type_of,
  body_of,
}
use node_with_aoth.Orders.Keeps.{Keeps-update_order, order_saga_consumer-Holds}
use node_with_aoth.Inventory.Tables.{Reservation}
use node_with_aoth.Payments.Handler.{Attempt}
use node_with_aoth.Platform.Said.{
  Kind, reserve, reserved, rejected, process, paid, refused, release, name_of, name_of_injective,
  key_of, Content, Founded, Said, approved, has_reservation, has_attempt,
}
use node_with_aoth.Platform.Records.{OrderOk}

-- The kind of message that each reply is.
kind_of : Reply → Kind
kind_of inventory_reserved = reserved
kind_of inventory_rejected = rejected
kind_of payment_succeeded = paid
kind_of payment_failed = refused

kind_of_reply : (k : Kind) (r : Reply) → name_of k ≡ type_of r → k ≡ kind_of r
unfolding kind_of
kind_of_reply k inventory_reserved e = name_of_injective k reserved e
kind_of_reply k inventory_rejected e = name_of_injective k rejected e
kind_of_reply k payment_succeeded e = name_of_injective k paid e
kind_of_reply k payment_failed e = name_of_injective k refused e

routed_row :
    (i topic event_id rk : String) (p : Payload) (c : Option String)
    → let e = create_event_envelope event_id rk p c in
      message_routing_key (row_message (new_row i topic e.routing_key e.payload e.headers))
      ≡ some rk
unfolding row_message publish_event create_event_envelope
routed_row i topic event_id rk p none = refl
routed_row i topic event_id rk p (some c) = ground arith

module _ (rt : Runtime) (drawn : String → CreateInput) (rs : List Reservation)
    (us : List Attempt) where
  abbrev pub Orderly : OrdersDb → Type 0
  Orderly db = All (OrderOk rt drawn rs us) db.store × AllRows (Said rt drawn rs us) db.outbox

  -- A message that order-service sends.
  event-Said :
      (i topic event_id : String) (k : Kind) (order_id : String) (p : Payload) (c : Option String)
      → p.event_type ≡ some (name_of k)
      → p.order_id ≡ some order_id
      → Content rt drawn k order_id (record p { event_id = some event_id })
      → Founded k order_id rs us
      → let e = create_event_envelope event_id (key_of k) p c in
        Said rt drawn rs us (row_message (new_row i topic e.routing_key e.payload e.headers))
  unfolding row_message publish_event create_event_envelope
  event-Said i topic event_id k order_id p c typed about content founded = record {
    kind = k;
    payload = record p { event_id = some event_id };
    order_id = order_id;
    carried = refl;
    typed = typed;
    routed = routed_row i topic event_id (key_of k) p c;
    about = about;
    content = content;
    founded = founded;
  }

  created-Orderly :
      (i : String) (ids : Fresh) (s t : OrdersDb)
      → (t ≡ s) ⊎ CreatedIn rt i ids (drawn i) s t
      → Orderly s
      → Orderly t
  created-Orderly i ids s t (inl same) h = rw same h
  created-Orderly i ids s t (inr a) h = (
    rw a.orders (
        All-append (OrderOk rt drawn rs us) s.store
          (order_row (new_order rt i (drawn i)) a.total a.quantity ∷ []) h.0
          (
            record {
              total = a.total_fits;
              currency = refl;
              sku = refl;
              quantity = a.quantity_fits;
              settled = λ e. absurd (cc);
            },
            tt,
          )),
    rw a.events (
        AllRows-append (Said rt drawn rs us) s.outbox _ h.1 (
          event-Said ids.outbox_id _ ids.event_id reserve i _ _ refl refl (refl, refl, refl, refl)
            tt)),
  )

  -- An insertion on the strength of any read.
  pub create_if_new-Orderly :
      (f : Faults) (i : String) (ids : Fresh) (find : Option Order) (s : OrdersDb)
      → Orderly s
      → Orderly (create_if_new rt f i ids (drawn i) find s).1
  create_if_new-Orderly f i ids find s h =
      created-Orderly i ids s _ (if_new-CreatedIn rt i ids (drawn i) f s find) h

  OrderOk-update :
      (i : Option String) (g : Order → Order)
      → ((o : Order)
          → is_text i o.id ≡ true
          → OrderOk rt drawn rs us o
          → OrderOk rt drawn rs us (g o))
      → (os : List Order) → All (OrderOk rt drawn rs us) os
      → All (OrderOk rt drawn rs us) (update_rows i g os)
  OrderOk-update i g keeps [] h = tt
  OrderOk-update i g keeps (o ∷ os) h =
      (by_test (is_text i o.id) refl, OrderOk-update i g keeps os h.1)
    where
      by_test : (b : Bool) → is_text i o.id ≡ b → OrderOk rt drawn rs us (if b then g o else o)
      by_test true e = keeps o e h.0
      by_test false e = h.0

  open_status :
      (o : Order) (st : Status) (reason : Option String)
      → st ≢ confirmed
      → OrderOk rt drawn rs us o
      → OrderOk rt drawn rs us (record o { status = st; failure_reason = reason })
  open_status o st reason n k = record {
    total = k.total;
    currency = k.currency;
    sku = k.sku;
    quantity = k.quantity;
    settled = λ e. absurd (n e);
  }

  -- What a reply says, once its payload is read.
  record Heard (r : Reply) (p : Payload) : Type 0 where
    order_id : String
    about : p.order_id ≡ some order_id
    content : Content rt drawn (kind_of r) order_id p
    founded : Founded (kind_of r) order_id rs us

  hear :
      (m : Message) (p : Payload) (r : Reply)
      → Said rt drawn rs us m
      → parse_value m.value ≡ ok p
      → p.event_type ≡ some (type_of r)
      → Heard r p
  hear m p r said read typed =
      let same : said.payload ≡ p = json-read m.value said.payload p said.carried read in
      let kind = kind_of_reply said.kind r (cc (said.typed, typed, same)) in
      record {
        order_id = said.order_id;
        about = subst (λ (q : Payload). q.order_id ≡ some said.order_id) same said.about;
        content =
            subst (λ (q : Payload). Content rt drawn (kind_of r) said.order_id q) same
              (subst (λ k. Content rt drawn k said.order_id said.payload) kind said.content);
        founded = subst (λ k. Founded k said.order_id rs us) kind said.founded;
      }

  confirm :
      (p : Payload) (h : Heard payment_succeeded p) (o : Order)
      → is_text p.order_id o.id ≡ true
      → OrderOk rt drawn rs us o
      → OrderOk rt drawn rs us (set_status confirmed o)
  unfolding kind_of
  confirm p h o e k =
      let same : h.order_id ≡ o.id = ground (arith, h.about, ==_iff h.order_id o.id) in
      record {
        total = k.total;
        currency = k.currency;
        sku = k.sku;
        quantity = k.quantity;
        settled = λ _.
            subst
              (λ i.
                (approved rt drawn i ≡ true)
                × (has_reservation i rs ≡ true)
                × (has_attempt i us ≡ true))
              same (h.content, h.founded.0, h.founded.1);
      }

  updates :
      (i : Option String) (g : Order → Order)
      → ((o : Order)
          → is_text i o.id ≡ true
          → OrderOk rt drawn rs us o
          → OrderOk rt drawn rs us (g o))
      → Keeps Orderly (update_order i g)
  updates i g keeps =
      Keeps-update_order Orderly i g (λ s v. (OrderOk-update i g keeps s.store v.0, v.1))

  sends :
      (i topic key : String) (q : Payload) (hs : Headers)
      → Said rt drawn rs us (row_message (new_row i topic key q hs))
      → Keeps Orderly (insert_outbox i topic key q hs)
  sends i topic key q hs said = record {
    at = λ s v. (
      subst (All (OrderOk rt drawn rs us)) (sym (store-insert_outbox i topic key q hs s)) v.0,
      outbox-insert_outbox (Said rt drawn rs us) i topic key q hs s v.1 said,
    );
  }

  reply-Orderly :
      (r : Reply) (ids : Fresh) (c : Option String) (p : Payload)
      → Heard r p
      → Keeps Orderly (body_of r ids c p)
  unfolding on_inventory_reserved on_inventory_rejected on_payment_succeeded on_payment_failed
      kind_of
  reply-Orderly inventory_reserved ids c p h =
      Keeps-then
        (updates p.order_id (set_status pending_payment)
          (λ o _. open_status o pending_payment o.failure_reason (λ e. cc)))
        (sends ids.outbox_id _ _ _ _ (
          event-Said ids.outbox_id _ ids.event_id process h.order_id _ c refl h.about h.content
            h.founded))
  reply-Orderly inventory_rejected ids c p h =
      updates p.order_id (set_failed p.reason) (λ o _. open_status o failed p.reason (λ e. cc))
  reply-Orderly payment_succeeded ids c p h =
      updates p.order_id (set_status confirmed) (confirm p h)
  reply-Orderly payment_failed ids c p h =
      Keeps-then
        (updates p.order_id (set_failed p.reason) (λ o _. open_status o failed p.reason (λ e. cc)))
        (sends ids.outbox_id _ _ _ _ (
          event-Said ids.outbox_id _ ids.event_id release h.order_id _ c refl h.about h.content tt))

  -- One delivery of a message that is true.
  pub order_saga_consumer-Orderly :
      (f : Faults) (ids : Fresh) (m : Message)
      → Said rt drawn rs us m
      → Keeps Orderly (order_saga_consumer f ids m)
  order_saga_consumer-Orderly f ids m said =
      order_saga_consumer-Holds Orderly (λ i t k s h. h) f ids m
        (λ p r read typed.
          reply-Orderly r ids (get_header "correlationId" m.headers) p (hear m p r said read typed))
