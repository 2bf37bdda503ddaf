-- ===== src/Platform/Reservations.antt =====
-- The rows of the reservations, and the replies of inventory-service.
use node_with_aoth.Prelude.{
  ◌≡◌, ◌==◌, refl, subst, ◌⊎◌, inl, inr, String, Bool, true, false, Option, some, List, [], ◌∷◌,
  All, arith, ==_iff, ==_refl, if◌then◌else◌,
}
use node_with_aoth.Shared.{Payload}
use node_with_aoth.Messaging.{passes_over, publish_event}
use node_with_aoth.Service.Tables.{Fresh}
use node_with_aoth.Service.Outbox.{row_message}
use node_with_aoth.Orders.Create.{Runtime, CreateInput}
use node_with_aoth.Inventory.Tables.{Reservation, held, released, hold_rows, release_rows}
use node_with_aoth.Inventory.Handler.{create_event_envelope, inventory_keys}
use node_with_aoth.Inventory.Cases.{reply_row}
use node_with_aoth.Payments.Handler.{Attempt}
use node_with_aoth.Platform.Said.{
  Kind, reserve, reserved, rejected, process, paid, refused, release, name_of, key_of, Content,
  Founded, Said, approved, has_reservation,
}
use node_with_aoth.Platform.Records.{ReservationOk}

pub has_reservation-hold :
    (i : String) (new : Reservation) (rs : List Reservation)
    → has_reservation i rs ≡ true
    → has_reservation i (hold_rows new rs) ≡ true
has_reservation-hold i new [] h = absurd (cc)
has_reservation-hold i new (r ∷ rs) h = ground (arith, has_reservation-hold i new rs)

pub has_reservation-hold_self :
    (new : Reservation) (rs : List Reservation)
    → has_reservation new.order_id (hold_rows new rs) ≡ true
has_reservation-hold_self new [] = rw (==_refl new.order_id) refl
has_reservation-hold_self new (r ∷ rs) = ground (arith, has_reservation-hold_self new rs)

pub has_reservation-release :
    (i : String) (k : Option String) (rs : List Reservation)
    → has_reservation i rs ≡ true
    → has_reservation i (release_rows k rs) ≡ true
has_reservation-release i k [] h = h
has_reservation-release i k (r ∷ rs) h = ground (arith, has_reservation-release i k rs)

-- Of the kinds, the consumer listens to two.
pub heard_kind :
    (k : Kind)
    → passes_over inventory_keys (some (key_of k)) ≡ false
    → (k ≡ reserve) ⊎ (k ≡ release)
heard_kind reserve h = inl refl
heard_kind release h = inr refl
heard_kind reserved h = absurd (cc)
heard_kind rejected h = absurd (cc)
heard_kind process h = absurd (cc)
heard_kind paid h = absurd (cc)
heard_kind refused h = absurd (cc)

module _ (rt : Runtime) (drawn : String → CreateInput) where
  pub ReservationOk-hold :
      (new : Reservation) (rs : List Reservation)
      → ReservationOk rt drawn new
      → All (ReservationOk rt drawn) rs
      → All (ReservationOk rt drawn) (hold_rows new rs)
  ReservationOk-hold new [] n h = (n, tt)
  ReservationOk-hold new (r ∷ rs) n h =
      by_test (r.order_id == new.order_id) (ReservationOk-hold new rs n h.1)
    where
      again : ReservationOk rt drawn (record r { status = held })
      again = record { sku = h.0.sku; quantity = h.0.quantity; given_back = λ e. absurd (cc) }

      by_test :
          (b : Bool)
          → All (ReservationOk rt drawn) (hold_rows new rs)
          → All
              (ReservationOk rt drawn)
              (if b then record r { status = held } ∷ rs else r ∷ hold_rows new rs)
      by_test true rest = (again, h.1)
      by_test false rest = (h.0, rest)

  pub ReservationOk-release :
      (i : String) (rs : List Reservation)
      → approved rt drawn i ≡ false
      → All (ReservationOk rt drawn) rs
      → All (ReservationOk rt drawn) (release_rows (some i) rs)
  ReservationOk-release i [] no_money h = tt
  ReservationOk-release i (r ∷ rs) no_money h =
      (by_test (i == r.order_id) refl, ReservationOk-release i rs no_money h.1)
    where
      by_test :
          (b : Bool)
          → (i == r.order_id) ≡ b
          → ReservationOk rt drawn (if b then record r { status = released } else r)
      by_test true e = record {
        sku = h.0.sku;
        quantity = h.0.quantity;
        given_back =
            λ _. subst (λ j. approved rt drawn j ≡ false) ((==_iff i r.order_id).0 e) no_money;
      }
      by_test false e = h.0

  -- A reply of inventory-service.
  pub reply-Said :
      (ids : Fresh) (k : Kind) (order_id : String) (p : Payload) (rs : List Reservation)
      (us : List Attempt)
      → p.event_type ≡ some (name_of k)
      → p.order_id ≡ some order_id
      → Content rt drawn k order_id (record p { event_id = some ids.event_id })
      → Founded k order_id rs us
      → Said rt drawn rs us (row_message (reply_row ids (key_of k) p))
  unfolding row_message publish_event create_event_envelope
  reply-Said ids k order_id p rs us typed about content founded = record {
    kind = k;
    payload = record p { event_id = some ids.event_id };
    order_id = order_id;
    carried = refl;
    typed = typed;
    routed = refl;
    about = about;
    content = content;
    founded = founded;
  }
