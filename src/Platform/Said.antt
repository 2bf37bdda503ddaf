-- ===== src/Platform/Said.antt =====
-- What a message of the saga says about its order, and what must have happened before it is said.
use node_with_aoth.Prelude.{
  ◌≡◌, ◌==◌, refl, sym, ap, ◌∙◌, String, Bool, true, false, ◌||◌, Option, none, some, if◌then◌else◌,
  List, [], ◌∷◌,
}
use node_with_aoth.Shared.{event_types, routing_keys, Payload, number_le}
use node_with_aoth.Messaging.{Message, json, message_routing_key}
use node_with_aoth.Orders.Create.{Runtime, CreateInput}
use node_with_aoth.Inventory.Tables.{Reservation}
use node_with_aoth.Payments.Handler.{Attempt}

pub data Kind : Type 0 where
  reserve reserved rejected process paid refused release : Kind

-- The `eventType` of a payload.
abbrev pub name_of : Kind → String
name_of reserve = event_types.reserve_inventory_requested
name_of reserved = event_types.inventory_reserved
name_of rejected = event_types.inventory_rejected
name_of process = event_types.process_payment
name_of paid = event_types.payment_succeeded
name_of refused = event_types.payment_failed
name_of release = event_types.release_inventory

abbrev pub key_of : Kind → String
key_of reserve = routing_keys.reserve_inventory
key_of reserved = routing_keys.inventory_reserved
key_of rejected = routing_keys.inventory_rejected
key_of process = routing_keys.process_payment
key_of paid = routing_keys.payment_succeeded
key_of refused = routing_keys.payment_failed
key_of release = routing_keys.release_inventory

-- The kind that an event type names.
kind_named : String → Option Kind
kind_named s =
    if s == name_of reserve
    then some reserve
    else if s == name_of reserved
    then some reserved
    else if s == name_of rejected
    then some rejected
    else if s == name_of process
    then some process
    else if s == name_of paid
    then some paid
    else if s == name_of refused
    then some refused
    else if s == name_of release
    then some release
    else none

kind_named-name_of : (k : Kind) → kind_named (name_of k) ≡ some k
unfolding kind_named
kind_named-name_of reserve = refl
kind_named-name_of reserved = refl
kind_named-name_of rejected = refl
kind_named-name_of process = refl
kind_named-name_of paid = refl
kind_named-name_of refused = refl
kind_named-name_of release = refl

-- The event type of a message tells its kind.
pub name_of_injective : (k l : Kind) → name_of k ≡ name_of l → k ≡ l
name_of_injective k l e =
    let same : some k ≡ some l =
      sym (kind_named-name_of k) ∙ ap kind_named e ∙ kind_named-name_of l in
    cc

-- There is a row of the order.
abbrev pub has_reservation : String → List Reservation → Bool
has_reservation i [] = false
has_reservation i (r ∷ rs) = r.order_id == i || has_reservation i rs

abbrev pub has_attempt : String → List Attempt → Bool
has_attempt i [] = false
has_attempt i (a ∷ rest) = a.order_id == i || has_attempt i rest

-- What the other services have recorded by then.
abbrev pub Founded : Kind → String → List Reservation → List Attempt → Type 0
Founded reserved i rs us = has_reservation i rs ≡ true
Founded process i rs us = has_reservation i rs ≡ true
Founded paid i rs us = (has_reservation i rs ≡ true) × (has_attempt i us ≡ true)
Founded _ i rs us = Unit

module _ (rt : Runtime) (drawn : String → CreateInput) where
  abbrev pub currency_of : String → String
  currency_of i = rt.to_upper (drawn i).body.currency

  -- Whether the payment of the order is within the limit.
  abbrev pub approved : String → Bool
  approved i = number_le (drawn i).body.total_amount 10000

  -- The fields of the payload that the receiver reads, as the order's request determines them.
  abbrev pub Content : Kind → String → Payload → Type 0
  Content reserve i p =
      (p.item_sku ≡ some (drawn i).body.item_sku)
      × (p.quantity ≡ some (drawn i).body.quantity)
      × (p.total_amount ≡ some (drawn i).body.total_amount)
      × (p.currency ≡ some (currency_of i))
  Content reserved i p =
      (p.total_amount ≡ some (drawn i).body.total_amount) × (p.currency ≡ some (currency_of i))
  Content rejected i p = Unit
  Content process i p =
      (p.amount ≡ some (drawn i).body.total_amount) × (p.currency ≡ some (currency_of i))
  Content paid i p = approved i ≡ true
  Content refused i p = approved i ≡ false
  Content release i p = approved i ≡ false

  pub record Said (rs : List Reservation) (us : List Attempt) (m : Message) : Type 0 where
    pub kind : Kind
    pub payload : Payload
    pub order_id : String
    pub carried : m.value ≡ json payload
    pub typed : payload.event_type ≡ some (name_of kind)
    pub routed : message_routing_key m ≡ some (key_of kind)
    pub about : payload.order_id ≡ some order_id
    pub content : Content kind order_id payload
    pub founded : Founded kind order_id rs us
