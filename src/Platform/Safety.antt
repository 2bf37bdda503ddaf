-- ===== src/Platform/Safety.antt =====
-- What the saga guarantees across the services.
use node_with_aoth.Prelude.{
  ◌≡◌, ◌==◌, refl, sym, ap, ◌∙◌, subst, ◌&&◌, String, Bool, true, false, Option, some, List, [],
  ◌∷◌, All, Memᴰ, arith, ==_iff, if◌then◌else◌,
}
use node_with_aoth.Shared.{Payload, event_types, number_le}
use node_with_aoth.Messaging.{Message, json, parse_value, json-read, parse_value-json}
use node_with_aoth.Database.Action.{ok}
use node_with_aoth.Database.Columns.{to_cents, to_integer}
use node_with_aoth.Orders.Tables.{confirmed, Order, find_order}
use node_with_aoth.Orders.Create.{Runtime, CreateInput}
use node_with_aoth.Inventory.Tables.{
  Item, Reservation, ReservationStatus, held, released, is_held, find_held,
}
use node_with_aoth.Payments.Handler.{Attempt, succeeded, find_attempt}
use node_with_aoth.Payments.Settlement.{verdict}
use node_with_aoth.Platform.System.{System, Reach, start}
use node_with_aoth.Platform.Said.{
  Kind, paid, refused, name_of, name_of_injective, Content, Said, approved, has_reservation,
  has_attempt, currency_of,
}
use node_with_aoth.Platform.Records.{OrderOk, ReservationOk, AttemptOk}
use node_with_aoth.Platform.Invariant.{All-member, Inv, Reach-Inv}

find_order-All {κ} :
    (P : Order → Type κ) (i : String) (os : List Order) (o : Order)
    → find_order i os ≡ some o
    → All P os
    → (o.id ≡ i) × P o
find_order-All P i [] o e h = absurd (cc)
find_order-All P i (x ∷ os) o e h = by_test (x.id == i) refl e (λ k. find_order-All P i os o k h.1)
  where
    by_test :
        (b : Bool)
        → (x.id == i) ≡ b
        → (if b then some x else find_order i os) ≡ some o
        → (find_order i os ≡ some o → (o.id ≡ i) × P o)
        → (o.id ≡ i) × P o
    by_test true t k below =
        let same : x ≡ o = cc in
        (ap (λ (y : Order). y.id) (sym same) ∙ (==_iff x.id i).0 t, subst P same h.0)
    by_test false t k below = below k

module _ (rt : Runtime) (drawn : String → CreateInput) where
  -- A reservation of an order that was approved is still held.
  held_row :
      (i : String) (rs : List Reservation)
      → has_reservation i rs ≡ true
      → approved rt drawn i ≡ true
      → All (ReservationOk rt drawn) rs
      → (r : Reservation) × (find_held (some i) rs ≡ some r)
        × (r.order_id ≡ i)
        × ReservationOk rt drawn r
  held_row i [] h money k = absurd (cc)
  held_row i (r ∷ rs) h money k =
      by_test (i == r.order_id) r.status refl refl (λ e. held_row i rs e money k.1)
    where
      Found : Option Reservation → Type 0
      Found o = (x : Reservation) × (o ≡ some x) × (x.order_id ≡ i) × ReservationOk rt drawn x

      by_test :
          (b : Bool) (st : ReservationStatus)
          → (i == r.order_id) ≡ b
          → r.status ≡ st
          → (has_reservation i rs ≡ true → Found (find_held (some i) rs))
          → Found (if b && is_held st then some r else find_held (some i) rs)
      by_test true held e s below = (r, refl, sym ((==_iff i r.order_id).0 e), k.0)
      by_test true released e s below =
          let same : i ≡ r.order_id = (==_iff i r.order_id).0 e in
          let no_money : approved rt drawn i ≡ false =
            ap (approved rt drawn) same ∙ k.0.given_back s in
          absurd (cc)
      by_test false st e s below = below (ground (arith, ==_iff r.order_id i, ==_iff i r.order_id))

  attempt_row :
      (i : String) (us : List Attempt)
      → has_attempt i us ≡ true
      → All (AttemptOk rt drawn) us
      → (a : Attempt) × (find_attempt i us ≡ some a) × (a.order_id ≡ i) × AttemptOk rt drawn a
  attempt_row i [] h k = absurd (cc)
  attempt_row i (a ∷ us) h k = by_test (a.order_id == i) refl (λ e. attempt_row i us e k.1)
    where
      Found : Option Attempt → Type 0
      Found o = (x : Attempt) × (o ≡ some x) × (x.order_id ≡ i) × AttemptOk rt drawn x

      by_test :
          (b : Bool)
          → (a.order_id == i) ≡ b
          → (has_attempt i us ≡ true → Found (find_attempt i us))
          → Found (if b then some a else find_attempt i us)
      by_test true e below = (a, refl, (==_iff a.order_id i).0 e, k.0)
      by_test false e below = below (ground arith)

-- The reservation and the payment that stand behind an order.
pub record Fulfilled (s : System) (o : Order) : Type 0 where
  pub reservation : Reservation
  pub attempt : Attempt
  pub is_held : find_held (some o.id) s.inventory.store.reservations ≡ some reservation
  pub same_sku : reservation.sku ≡ o.item_sku
  pub same_quantity : reservation.quantity ≡ o.quantity
  pub is_paid : find_attempt o.id s.payments.store ≡ some attempt
  pub has_succeeded : attempt.status ≡ succeeded
  pub same_amount : attempt.amount ≡ o.total_amount
  pub same_currency : attempt.currency ≡ o.currency

module _ (rt : Runtime) (drawn : String → CreateInput) where
  fulfilled :
      (s : System) (o : Order)
      → Inv rt drawn s
      → OrderOk rt drawn s.inventory.store.reservations s.payments.store o
      → o.status ≡ confirmed
      → Fulfilled s o
  fulfilled s o v k e =
      let (money, booked, billed) = k.settled e in
      let (r, found, of_order, r_ok) =
        held_row rt drawn o.id s.inventory.store.reservations booked money v.reservations in
      let (a, paid_by, of_payment, a_ok) =
        attempt_row rt drawn o.id s.payments.store billed v.attempts in
      record {
        reservation = r;
        attempt = a;
        is_held = found;
        same_sku = r_ok.sku ∙ ap (λ i. (drawn i).body.item_sku) of_order ∙ sym k.sku;
        same_quantity =
            let asked : to_integer (drawn o.id).body.quantity ≡ ok r.quantity =
              subst (λ i. to_integer (drawn i).body.quantity ≡ ok r.quantity) of_order
                r_ok.quantity in
            cc (asked, k.quantity);
        is_paid = paid_by;
        has_succeeded =
            a_ok.verdict_is ∙ ap (λ i. verdict (approved rt drawn i)) of_payment ∙ ap verdict money;
        same_amount =
            let asked : to_cents (drawn o.id).body.total_amount ≡ ok a.amount =
              subst (λ i. to_cents (drawn i).body.total_amount ≡ ok a.amount) of_payment
                a_ok.amount in
            cc (asked, k.total);
        same_currency =
            a_ok.currency ∙ ap (λ i. currency_of rt drawn i) of_payment ∙ sym k.currency;
      }

  -- Whatever requests, deliveries, redeliveries and outbox runs happen from the start on, in whatever
  -- order, and whatever fails in them: as long as an order is CONFIRMED, there is a reservation of
  -- exactly its SKU and quantity that is still held, and a payment of exactly its amount and
  -- currency that succeeded.
  pub confirmed-Fulfilled :
      {items : List Item} {s : System}
      → Reach rt drawn (start items) s
      → (i : String) (o : Order) → find_order i s.orders.store ≡ some o
      → o.status ≡ confirmed
      → Fulfilled s o
  confirmed-Fulfilled {items} {s} r i o found e =
      let v = Reach-Inv rt drawn r in
      let k =
        find_order-All (OrderOk rt drawn s.inventory.store.reservations s.payments.store) i
          s.orders.store o found v.orders in
      fulfilled s o v k.1 e

  -- What a message of the given kind about an order establishes.
  told-Content :
      (s : System) (k : Kind) (m : Message) (p : Payload) (i : String)
      → Inv rt drawn s
      → Memᴰ m s.log
      → m.value ≡ json p
      → p.event_type ≡ some (name_of k)
      → p.order_id ≡ some i
      → (q : Payload) × Content rt drawn k i q
  told-Content s k m p i v sent carries typed about =
      let said =
        All-member (Said rt drawn s.inventory.store.reservations s.payments.store) m s.log sent
          v.log_says in
      let same : said.payload ≡ p =
        json-read m.value said.payload p said.carried
          (ap parse_value carries ∙ parse_value-json p) in
      let kind = name_of_injective said.kind k (cc (said.typed, typed, same)) in
      let named : said.order_id ≡ i = cc (said.about, about, same) in
      (
        said.payload,
        subst (λ j. Content rt drawn k j said.payload) named
            (subst (λ l. Content rt drawn l said.order_id said.payload) kind said.content),
      )

  -- A payment's answer that stands in the log is the one that the order's request calls for: it is
  -- a success exactly if the total that was ordered is at most 10000. So the log never holds both a
  -- success and a failure of one order.
  pub payment_answer-approved :
      {items : List Item} {s : System}
      → Reach rt drawn (start items) s
      → (m : Message) (p : Payload) (i : String) (b : Bool) → Memᴰ m s.log
      → m.value ≡ json p
      → p.event_type
        ≡ some (if b then event_types.payment_succeeded else event_types.payment_failed)
      → p.order_id ≡ some i
      → number_le (drawn i).body.total_amount 10000 ≡ b
  payment_answer-approved {items} {s} r m p i true sent carries typed about =
      (told-Content s paid m p i (Reach-Inv rt drawn r) sent carries typed about).1
  payment_answer-approved {items} {s} r m p i false sent carries typed about =
      (told-Content s refused m p i (Reach-Inv rt drawn r) sent carries typed about).1
