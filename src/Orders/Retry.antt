-- ===== src/Orders/Retry.antt =====
-- `POST /internal/orders` sent again by a client that repeats it.
use node_with_aoth.Prelude.{◌≡◌, refl, ap, ap₂, String, Option, none, some}
use node_with_aoth.Shared.Schema.{OrderBody, parse_order_create}
use node_with_aoth.Database.Action.{Result, ok, err, pure, follow}
use node_with_aoth.Database.Transaction.{Faults}
use node_with_aoth.Service.Tables.{Fresh}
use node_with_aoth.Orders.Tables.{Status, pending_inventory, OrdersDb}
use node_with_aoth.Orders.Create.{
  Runtime, CreateInput, Outcome, conflict, replayed, created, create_order,
}
use node_with_aoth.Orders.Steps.{Reach}
use node_with_aoth.Orders.Idempotency.{create_order-retry}
use node_with_aoth.Orders.Controller.{
  OrderRequest, order, replayed_order, header_text, respond, parsed, create_if_complete,
  create_order_controller,
}

module _ (rt : Runtime) where
  input_of : String → OrderBody → String → String → CreateInput
  input_of id body user key = record {
    body = body;
    user_sub = user;
    idempotency_key = key;
    correlation_id = id;
  }

  -- A request that passed the guards, with what they read of it.
  record Complete (q : OrderRequest) : Type 0 where
    body : OrderBody
    user : String
    key : String
    parses : parse_order_create q.body ≡ some body
    has_user : header_text q.user_sub ≡ some user
    has_key : header_text q.idempotency_key ≡ some key

  input : {q : OrderRequest} → Complete q → CreateInput
  unfolding input_of
  input {q} c = input_of q.id c.body c.user c.key

  created_of :
      (r : Result Outcome) (u t : OrdersDb) (i : String)
      → follow (λ o. pure (respond o)) (r, u)
        ≡ (ok (record { code = 202; body = order i pending_inventory }), t)
      → (r ≡ ok (created i)) × (u ≡ t)
  created_of (ok (created j)) u t i e = (cc, cc)
  created_of (ok conflict) u t i e = absurd (cc)
  created_of (ok (replayed j st)) u t i e = absurd (cc)
  created_of (err x) u t i e = absurd (cc)

  passed :
      (f : Faults) (order_id : String) (ids : Fresh) (q : OrderRequest) (s t : OrdersDb)
      (i : String)
      → create_order_controller rt f order_id ids q s
        ≡ (ok (record { code = 202; body = order i pending_inventory }), t)
      → (c : Complete q) × (create_order rt f order_id ids (input c) s ≡ (ok (created i), t))
  unfolding create_order_controller create_if_complete input input_of
  passed f order_id ids q s t i e =
      split (parse_order_create q.body) (header_text q.user_sub) (header_text q.idempotency_key)
        refl refl refl e
    where
      split :
          (b : Option OrderBody) (u k : Option String)
          → parse_order_create q.body ≡ b
          → header_text q.user_sub ≡ u
          → header_text q.idempotency_key ≡ k
          → follow (λ body. create_if_complete rt f order_id ids q.id body u k) (parsed b, s)
            ≡ (ok (record { code = 202; body = order i pending_inventory }), t)
          → (c : Complete q) × (create_order rt f order_id ids (input c) s ≡ (ok (created i), t))
      split none u k eb eu ek e = absurd (cc)
      split (some b) none k eb eu ek e = absurd (cc)
      split (some b) (some u) none eb eu ek e = absurd (cc)
      split (some b) (some u) (some k) eb eu ek e =
          let c : Complete q = record {
            body = b;
            user = u;
            key = k;
            parses = eb;
            has_user = eu;
            has_key = ek;
          } in
          let run = create_order rt f order_id ids (input_of q.id b u k) s in
          let (answer, state) = created_of run.0 run.1 t i e in
          (c, ap₂ (λ (r : Result Outcome) (v : OrdersDb). (r, v)) answer state)

  -- A POST that was answered 202 with an order's id, when it comes again with the same body and
  -- the same user and idempotency headers, is answered 200 with the same id and the status that
  -- the order has by then, and changes nothing; whatever requests, deliveries and outbox runs came
  -- in between, and whatever failed in them.
  pub create_order_controller-retry :
      (f g : Faults) (order_id later_id : String) (ids later_ids : Fresh) (q again : OrderRequest)
      (s t u : OrdersDb) (i : String)
      → create_order_controller rt f order_id ids q s
        ≡ (ok (record { code = 202; body = order i pending_inventory }), t)
      → Reach rt t u
      → again.body ≡ q.body
      → again.user_sub ≡ q.user_sub
      → again.idempotency_key ≡ q.idempotency_key
      → (st : Status) × (create_order_controller rt g later_id later_ids again u
          ≡ (ok (record { code = 200; body = replayed_order i st }), u))
  unfolding create_order_controller create_if_complete input input_of
  create_order_controller-retry f g order_id later_id ids later_ids q again s t u i e r body user
        key =
      let (c, done) = passed f order_id ids q s t i e in
      let (st, replay) =
        create_order-retry rt f g order_id later_id ids later_ids (input c)
          (input_of again.id c.body c.user c.key) s t u i done r refl refl refl in
      (
        st,
        rw (body, user, key, c.parses, c.has_user, c.has_key)
            (ap (λ (x : Result Outcome × OrdersDb). follow (λ o. pure (respond o)) x) replay),
      )
