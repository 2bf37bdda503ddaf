-- ===== src/Platform/Stocking.antt =====
-- The part of inventory-service in the whole: what its reservations and its replies rest on.
use node_with_aoth.Prelude.{
  ◌≡◌, refl, ap, ◌∙◌, subst, inl, inr, String, true, false, some, List, All, ==_iff,
}
use node_with_aoth.Shared.{Payload, event_types, is_text}
use node_with_aoth.Database.Action.{ok}
use node_with_aoth.Database.Columns.{to_integer}
use node_with_aoth.Database.Transaction.{Faults}
use node_with_aoth.Messaging.{Message, json-read, parse_value, message_routing_key, passes_over}
use node_with_aoth.Service.Tables.{Fresh}
use node_with_aoth.Service.Keeps.{Keeps}
use node_with_aoth.Service.Forwarding.{AllRows, AllRows-append}
use node_with_aoth.Orders.Create.{Runtime, CreateInput}
use node_with_aoth.Inventory.Tables.{Reservation, held, InventoryDb, hold_rows, release_rows}
use node_with_aoth.Inventory.Handler.{
  rejected_payload, reserved_payload, reserve_inventory, release_inventory, inventory_keys,
  inventory_consumer,
}
use node_with_aoth.Inventory.Cases.{
  reply_row, Taken, reserve_inventory-Reserved, release_inventory-Released,
}
use node_with_aoth.Inventory.Conservation.{inventory_consumer-Holds}
use node_with_aoth.Payments.Handler.{Attempt}
use node_with_aoth.Platform.Said.{
  Kind, reserve, reserved, rejected, release, name_of, name_of_injective, key_of, Content, Said,
  approved, has_reservation,
}
use node_with_aoth.Platform.Records.{ReservationOk, Grows, AllRows-grows}
use node_with_aoth.Platform.Reservations.{
  has_reservation-hold, has_reservation-hold_self, has_reservation-release, heard_kind,
  ReservationOk-hold, ReservationOk-release, reply-Said,
}

module _ (rt : Runtime) (drawn : String → CreateInput) (rs : List Reservation)
    (us : List Attempt) where
  -- The rows and messages of inventory-service, which has lost none of the reservations `rs`.
  pub record Stocked (db : InventoryDb) : Type 0 where
    pub rows : All (ReservationOk rt drawn) db.store.reservations
    pub said : AllRows (Said rt drawn db.store.reservations us) db.outbox
    pub grown : Grows rs db.store.reservations us us

  Grows-step :
      (vs ws : List Reservation)
      → ((i : String) → has_reservation i vs ≡ true → has_reservation i ws ≡ true)
      → Grows vs ws us us
  Grows-step vs ws h = record { reservations = h; attempts = λ i a. a }

  Grows-then :
      (vs ws : List Reservation) → Grows rs vs us us → Grows vs ws us us → Grows rs ws us us
  Grows-then vs ws g h = record {
    reservations = λ i a. h.reservations i (g.reservations i a);
    attempts = λ i a. a;
  }

  taken-Stocked :
      (ids : Fresh) (p : Payload) (i : String) (s t : InventoryDb)
      → p.order_id ≡ some i
      → Content rt drawn reserve i p
      → Taken ids p s t
      → Stocked s
      → Stocked t
  taken-Stocked ids p i s t about (for_sku, asked, total, currency) k v = rw k.result (record {
    rows = ReservationOk-hold rt drawn new s.store.reservations new_ok v.rows;
    said =
        AllRows-append (Said rt drawn ws us) s.outbox
          (reply_row ids (key_of reserved) (reserved_payload p))
          (AllRows-grows rt drawn step s.outbox v.said)
          (reply-Said rt drawn ids reserved k.order_id (reserved_payload p) ws us refl k.for_order
            (subst (λ j. Content rt drawn reserved j p) same (total, currency))
            (has_reservation-hold_self new s.store.reservations));
    grown = Grows-then s.store.reservations ws v.grown step;
  })
    where
      new : Reservation
      new = record { order_id = k.order_id; sku = k.sku; quantity = k.quantity; status = held }

      ws : List Reservation
      ws = hold_rows new s.store.reservations

      step : Grows s.store.reservations ws us us
      step =
          Grows-step s.store.reservations ws (λ j. has_reservation-hold j new s.store.reservations)

      same : i ≡ k.order_id
      same = cc (about, k.for_order)

      new_ok : ReservationOk rt drawn new
      new_ok = record {
        sku = subst (λ j. k.sku ≡ (drawn j).body.item_sku) same (cc (for_sku, k.for_sku));
        quantity =
            subst (λ j. to_integer (drawn j).body.quantity ≡ ok k.quantity) same
              (cc (asked, k.asked, k.whole));
        given_back = λ e. absurd (cc);
      }

  reserve-Stocked :
      (ids : Fresh) (p : Payload) (i : String) (s t : InventoryDb)
      → p.order_id ≡ some i
      → Content rt drawn reserve i p
      → Stocked s
      → reserve_inventory ids p s ≡ (ok tt, t)
      → Stocked t
  reserve-Stocked ids p i s t about content v e = elim (reserve_inventory-Reserved ids p s t e) [
    | inl (short, same) ↦ rw same (record {
      rows = v.rows;
      said =
          AllRows-append (Said rt drawn s.store.reservations us) s.outbox
            (reply_row ids (key_of rejected) (rejected_payload p)) v.said
            (reply-Said rt drawn ids rejected i (rejected_payload p) s.store.reservations us refl
              about tt tt);
      grown = v.grown;
    })
    | inr (enough, taken) ↦ taken-Stocked ids p i s t about content taken v
  ]

  release-Stocked :
      (p : Payload) (i : String) (s t : InventoryDb)
      → p.order_id ≡ some i
      → approved rt drawn i ≡ false
      → Stocked s
      → release_inventory p s ≡ (ok tt, t)
      → Stocked t
  release-Stocked p i s t about no_money v e = elim (release_inventory-Released p s t e) [
    | inl (missing, same) ↦ rw same v
    | inr r ↦
        rw (r.result, about)
          (record {
            rows = ReservationOk-release rt drawn i s.store.reservations no_money v.rows;
            said = AllRows-grows rt drawn step s.outbox v.said;
            grown = Grows-then s.store.reservations ws v.grown step;
          })
  ]
    where
      ws : List Reservation
      ws = release_rows (some i) s.store.reservations

      step : Grows s.store.reservations ws us us
      step =
          Grows-step s.store.reservations ws
            (λ j. has_reservation-release j (some i) s.store.reservations)

  -- What a command of the log asks for, once its payload is read.
  told :
      (m : Message) (p : Payload) (k : Kind) (said : Said rt drawn rs us m)
      → parse_value m.value ≡ ok p
      → said.kind ≡ k
      → (i : String) × (p.order_id ≡ some i) × Content rt drawn k i p
  told m p k said read kind =
      let same : said.payload ≡ p = json-read m.value said.payload p said.carried read in
      (
        said.order_id,
        subst (λ (q : Payload). q.order_id ≡ some said.order_id) same said.about,
        subst (λ (q : Payload). Content rt drawn k said.order_id q) same
            (subst (λ l. Content rt drawn l said.order_id said.payload) kind said.content),
      )

  typed_as :
      (m : Message) (p : Payload) (said : Said rt drawn rs us m)
      → parse_value m.value ≡ ok p
      → p.event_type ≡ some (name_of said.kind)
  typed_as m p said read =
      let same : said.payload ≡ p = json-read m.value said.payload p said.carried read in
      subst (λ (q : Payload). q.event_type ≡ some (name_of said.kind)) same said.typed

  reserve_kind :
      (m : Message) (p : Payload) (said : Said rt drawn rs us m)
      → parse_value m.value ≡ ok p
      → passes_over inventory_keys (message_routing_key m) ≡ false
      → is_text p.event_type event_types.release_inventory ≡ false
      → said.kind ≡ reserve
  reserve_kind m p said read heard other =
      elim (heard_kind said.kind
        (subst (λ k. passes_over inventory_keys k ≡ false) said.routed heard)) [
          | inl e ↦ e
          | inr e ↦ absurd (not_release e)
        ]
    where
      not_release : said.kind ≡ release → ⊥
      not_release e =
          let named : p.event_type ≡ some (name_of release) =
            typed_as m p said read ∙ ap (λ k. some (name_of k)) e in
          let wrong : is_text (some (name_of release)) event_types.release_inventory ≡ false =
            subst (λ o. is_text o event_types.release_inventory ≡ false) named other in
          cc

  release_kind :
      (m : Message) (p : Payload) (said : Said rt drawn rs us m)
      → parse_value m.value ≡ ok p
      → is_text p.event_type event_types.release_inventory ≡ true
      → said.kind ≡ release
  release_kind m p said read e = name_of_injective said.kind release (
      is_text-name (name_of said.kind)
        (subst (λ o. is_text o event_types.release_inventory ≡ true) (typed_as m p said read) e))
    where
      is_text-name :
          (t : String) → is_text (some t) event_types.release_inventory ≡ true → t ≡ name_of release
      is_text-name t h = (==_iff t event_types.release_inventory).0 h

  -- One delivery of a message that is true.
  pub inventory_consumer-Stocked :
      (f : Faults) (ids : Fresh) (m : Message)
      → Said rt drawn rs us m
      → Keeps Stocked (inventory_consumer f ids m)
  inventory_consumer-Stocked f ids m said =
      inventory_consumer-Holds Stocked
        (λ i t k s v. record { rows = v.rows; said = v.said; grown = v.grown }) m
        (λ n p s t read heard other v e.
          let (i, about, content) =
            told m p reserve said read (reserve_kind m p said read heard other) in
          reserve-Stocked n p i s t about content v e)
        (λ p s t read named v e.
          let (i, about, content) = told m p release said read (release_kind m p said read named) in
          release-Stocked p i s t about content v e)
        f ids
