-- ===== src/Platform/Records.antt =====
-- What each service's rows record of the request of their order, and how the facts that a message
-- rests on last.
use node_with_aoth.Prelude.{◌≡◌, String, true, false, List, [], ◌∷◌, All}
use node_with_aoth.Database.Action.{ok}
use node_with_aoth.Database.Columns.{to_cents, to_integer}
use node_with_aoth.Messaging.{Message}
use node_with_aoth.Service.Tables.{OutboxRow}
use node_with_aoth.Service.Outbox.{row_message}
use node_with_aoth.Service.Forwarding.{AllRows}
use node_with_aoth.Orders.Tables.{Order, confirmed}
use node_with_aoth.Orders.Create.{Runtime, CreateInput}
use node_with_aoth.Inventory.Tables.{Reservation, released}
use node_with_aoth.Payments.Handler.{Attempt}
use node_with_aoth.Payments.Settlement.{verdict}
use node_with_aoth.Platform.Said.{
  Kind, reserve, reserved, rejected, process, paid, refused, release, has_reservation, has_attempt,
  currency_of, approved, Founded, Said,
}

module _ (rt : Runtime) (drawn : String → CreateInput) where
  -- An order row, given the rows of the other services.
  pub record OrderOk (rs : List Reservation) (us : List Attempt) (o : Order) : Type 0 where
    pub total : to_cents (drawn o.id).body.total_amount ≡ ok o.total_amount
    pub currency : o.currency ≡ currency_of rt drawn o.id
    pub sku : o.item_sku ≡ (drawn o.id).body.item_sku
    pub quantity : to_integer (drawn o.id).body.quantity ≡ ok o.quantity
    pub settled :
        o.status ≡ confirmed
        → (approved rt drawn o.id ≡ true)
          × (has_reservation o.id rs ≡ true)
          × (has_attempt o.id us ≡ true)

  pub record ReservationOk (r : Reservation) : Type 0 where
    pub sku : r.sku ≡ (drawn r.order_id).body.item_sku
    pub quantity : to_integer (drawn r.order_id).body.quantity ≡ ok r.quantity
    pub given_back : r.status ≡ released → approved rt drawn r.order_id ≡ false

  pub record AttemptOk (a : Attempt) : Type 0 where
    pub amount : to_cents (drawn a.order_id).body.total_amount ≡ ok a.amount
    pub currency : a.currency ≡ currency_of rt drawn a.order_id
    pub verdict_is : a.status ≡ verdict (approved rt drawn a.order_id)

-- No order loses its rows.
pub record Grows (rs rs' : List Reservation) (us us' : List Attempt) : Type 0 where
  pub reservations : (i : String) → has_reservation i rs ≡ true → has_reservation i rs' ≡ true
  pub attempts : (i : String) → has_attempt i us ≡ true → has_attempt i us' ≡ true

pub Grows-refl : (rs : List Reservation) (us : List Attempt) → Grows rs rs us us
Grows-refl rs us = record { reservations = λ i h. h; attempts = λ i h. h }

module _ {rs rs' : List Reservation} {us us' : List Attempt} (g : Grows rs rs' us us') where
  Founded-grows : (k : Kind) (i : String) → Founded k i rs us → Founded k i rs' us'
  Founded-grows reserve i h = tt
  Founded-grows reserved i h = g.reservations i h
  Founded-grows rejected i h = tt
  Founded-grows process i h = g.reservations i h
  Founded-grows paid i h = (g.reservations i h.0, g.attempts i h.1)
  Founded-grows refused i h = tt
  Founded-grows release i h = tt

  pub Said-grows :
      {rt : Runtime} {drawn : String → CreateInput} (m : Message)
      → Said rt drawn rs us m
      → Said rt drawn rs' us' m
  Said-grows m s = record {
    kind = s.kind;
    payload = s.payload;
    order_id = s.order_id;
    carried = s.carried;
    typed = s.typed;
    routed = s.routed;
    about = s.about;
    content = s.content;
    founded = Founded-grows s.kind s.order_id s.founded;
  }

  pub OrderOk-grows :
      {rt : Runtime} {drawn : String → CreateInput} (o : Order)
      → OrderOk rt drawn rs us o
      → OrderOk rt drawn rs' us' o
  OrderOk-grows o k = record {
    total = k.total;
    currency = k.currency;
    sku = k.sku;
    quantity = k.quantity;
    settled =
        λ e. let (yes_, r, a) = k.settled e in (yes_, g.reservations o.id r, g.attempts o.id a);
  }

module _ (rt : Runtime) (drawn : String → CreateInput) {rs rs' : List Reservation}
    {us us' : List Attempt} (g : Grows rs rs' us us') where
  pub AllRows-grows :
      (rows : List OutboxRow)
      → AllRows (Said rt drawn rs us) rows
      → AllRows (Said rt drawn rs' us') rows
  AllRows-grows [] h = tt
  AllRows-grows (r ∷ rows) h = (Said-grows g (row_message r) h.0, AllRows-grows rows h.1)

  pub Log-grows :
      (log : List Message) → All (Said rt drawn rs us) log → All (Said rt drawn rs' us') log
  Log-grows [] h = tt
  Log-grows (m ∷ log) h = (Said-grows g m h.0, Log-grows log h.1)

  pub Orders-grow :
      (os : List Order) → All (OrderOk rt drawn rs us) os → All (OrderOk rt drawn rs' us') os
  Orders-grow [] h = tt
  Orders-grow (o ∷ os) h = (OrderOk-grows g o h.0, Orders-grow os h.1)
