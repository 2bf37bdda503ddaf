-- ===== src/Orders/Outbox.antt =====
-- The transactional outbox of order creation: an order and its event are written together or not
-- at all, whatever fails.
use node_with_aoth.Prelude.{
  ◌≡◌, refl, sym, ap, ◌∙◌, subst, ◌⊎◌, inl, inr, String, false, Option, none, some, [], ◌∷◌, ◌++◌,
  arith,
}
use node_with_aoth.Prelude.Int.{ℤ}
use node_with_aoth.Shared.{topics, routing_keys}
use node_with_aoth.Database.Action.{Result, ok, err, Action, pure, follow, ◌>>=◌, ◌>>◌}
use node_with_aoth.Database.Columns.{Cents, to_cents, to_integer}
use node_with_aoth.Database.Transaction.{Faults}
use node_with_aoth.Database.Atomicity.{Whole, with_transaction-Whole, with_transaction-Keeps}
use node_with_aoth.Service.Tables.{Fresh, OutboxRow, new_row, insert_outbox}
use node_with_aoth.Orders.Tables.{
  Order, OrdersDb, NewOrder, order_row, conflicts, insert_order, find_order_by_idempotency,
}
use node_with_aoth.Orders.Create.{
  Runtime, Envelope, CreateInput, created, create_event_envelope, create_order_with_outbox,
  reserve_payload, new_order, create_if_new, create_order,
}

-- What a creation adds: an order as its request describes it, free of conflicts with the orders
-- that are there, and one row of the outbox.
pub record Added (input : NewOrder) (row : OutboxRow) (s t : OrdersDb) : Type 0 where
  pub total : Cents
  pub quantity : ℤ
  pub total_fits : to_cents input.total_amount ≡ ok total
  pub quantity_fits : to_integer input.quantity ≡ ok quantity
  pub no_conflict : conflicts (order_row input total quantity) s.store ≡ false
  pub orders : t.store ≡ s.store ++ order_row input total quantity ∷ []
  pub events : t.outbox ≡ s.outbox ++ row ∷ []
  pub handled : t.processed ≡ s.processed

module _ (input : NewOrder) (i topic : String) (e : Envelope) where
  abbrev pub both : Action OrdersDb (Unit {0})
  both = do insert_order input; insert_outbox i topic e.routing_key e.payload e.headers

  both-Added :
      (s t : OrdersDb) (total : Result Cents) (quantity : Result ℤ)
      → to_cents input.total_amount ≡ total
      → to_integer input.quantity ≡ quantity
      → both s ≡ (ok tt, t)
      → Added input (new_row i topic e.routing_key e.payload e.headers) s t
  unfolding insert_order insert_outbox
  both-Added s t (err x) q et eq h = ground arith
  both-Added s t (ok c) (err x) et eq h = ground arith
  both-Added s t (ok c) (ok q) et eq h = record {
    total = c;
    quantity = q;
    total_fits = et;
    quantity_fits = eq;
    no_conflict = ground arith;
    orders = ground arith;
    events = ground arith;
    handled = ground arith;
  }

follow-pure :
    {S A B : Type 0} (m : Action S A) (b : B) (s : S) → ((m >>= λ _. pure b) s).1 ≡ (m s).1
follow-pure m b s = ground arith

module _ (rt : Runtime) (order_id : String) (ids : Fresh) (input : CreateInput) where
  abbrev pub reserve_event : Envelope
  reserve_event =
      create_event_envelope ids.event_id routing_keys.reserve_inventory
        (reserve_payload rt order_id input) (some input.correlation_id)

  -- The outbox row of the event that asks for the order's reservation.
  abbrev pub reserve_row : OutboxRow
  reserve_row =
      new_row ids.outbox_id topics.inventory reserve_event.routing_key reserve_event.payload
        reserve_event.headers

  abbrev pub CreatedIn : OrdersDb → OrdersDb → Type 0
  CreatedIn = Added (new_order rt order_id input) reserve_row

  insertion-CreatedIn :
      (f : Faults) (s : OrdersDb)
      → let t =
          (create_order_with_outbox f ids
            (new_order rt order_id input)
            topics.inventory
            reserve_event
            s).1 in
        (t ≡ s) ⊎ CreatedIn s t
  unfolding create_order_with_outbox
  insertion-CreatedIn f s =
      with_transaction-Keeps (λ t. (t ≡ s) ⊎ CreatedIn s t) f
        (both (new_order rt order_id input) ids.outbox_id topics.inventory reserve_event) s
        (inl refl)
        (λ a t e. inr (
          both-Added (new_order rt order_id input) ids.outbox_id topics.inventory reserve_event s t
            _ _ refl refl e))

  pub if_new-CreatedIn :
      (f : Faults) (s : OrdersDb) (found : Option Order)
      → let t = (create_if_new rt f order_id ids input found s).1 in (t ≡ s) ⊎ CreatedIn s t
  unfolding create_if_new
  if_new-CreatedIn f s (some o) = inl refl
  if_new-CreatedIn f s none =
      subst (λ t. (t ≡ s) ⊎ CreatedIn s t)
        (sym (
          follow-pure
            (create_order_with_outbox f ids (new_order rt order_id input) topics.inventory
              reserve_event)
            (created order_id) s))
        (insertion-CreatedIn f s)

  -- A call of `createOrder` writes nothing, or it writes the order as the request describes it
  -- together with exactly one outbox row, the order's reservation request. This holds whatever
  -- fails in the database, and whatever other requests have written.
  pub create_order-CreatedIn :
      (f : Faults) (s : OrdersDb)
      → let t = (create_order rt f order_id ids input s).1 in (t ≡ s) ⊎ CreatedIn s t
  unfolding create_order
  create_order-CreatedIn f s =
      if_new-CreatedIn f s (find_order_by_idempotency input.user_sub input.idempotency_key s)

  insertion_answer :
      (f : Faults) (s : OrdersDb) (r : Result (Unit {0})) (t : OrdersDb)
      → create_order_with_outbox f ids
          (new_order rt order_id input)
          topics.inventory
          reserve_event
          s
        ≡ (r, t)
      → r ≡ ok tt
      → CreatedIn s t
  unfolding create_order_with_outbox
  insertion_answer f s r t e ok_r =
      let m = both (new_order rt order_id input) ids.outbox_id topics.inventory reserve_event in
      both-Added (new_order rt order_id input) ids.outbox_id topics.inventory reserve_event s t _ _
        refl refl
        (subst (Whole m s) (e ∙ ap (λ (x : Result (Unit {0})). (x, t)) ok_r)
          (with_transaction-Whole f m s))

  -- A request that is answered "created" has written the order with the id that it answers.
  pub create_order_answer :
      (f : Faults) (s t : OrdersDb) (i : String)
      → create_order rt f order_id ids input s ≡ (ok (created i), t)
      → (i ≡ order_id)
        × (find_order_by_idempotency input.user_sub input.idempotency_key s ≡ none)
        × CreatedIn s t
  unfolding create_order create_if_new
  create_order_answer f s t i e =
      answer (find_order_by_idempotency input.user_sub input.idempotency_key s) refl e
    where
      answered :
          (r : Result (Unit {0})) (u : OrdersDb)
          → create_order_with_outbox f ids
              (new_order rt order_id input)
              topics.inventory
              reserve_event
              s
            ≡ (r, u)
          → follow (λ _. pure (created order_id)) (r, u) ≡ (ok (created i), t)
          → (i ≡ order_id) × CreatedIn s t
      answered (ok x) u made h =
          let done = insertion_answer f s (ok x) u made refl in (cc, subst (CreatedIn s) (cc) done)
      answered (err x) u made h = cc

      answer :
          (found : Option Order)
          → find_order_by_idempotency input.user_sub input.idempotency_key s ≡ found
          → create_if_new rt f order_id ids input found s ≡ (ok (created i), t)
          → (i ≡ order_id)
            × (find_order_by_idempotency input.user_sub input.idempotency_key s ≡ none)
            × CreatedIn s t
      answer (some o) found h = ground arith
      answer none found h = let (same, done) = answered _ _ refl h in (same, found, done)
