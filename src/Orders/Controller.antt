-- ===== src/Orders/Controller.antt =====
-- `createOrderController` of order-service: the guards on a request, and the replies.
use node_with_aoth.Prelude.{ℕ, String, Option, none, some, List, ◌==◌, if◌then◌else◌}
use node_with_aoth.Shared.Schema.{OrderBody, RawBody, parse_order_create}
use node_with_aoth.Database.Action.{Result, ok, err, invalid_body, Action, pure, lift, ◌>>=◌}
use node_with_aoth.Database.Transaction.{Faults}
use node_with_aoth.Service.Tables.{Fresh}
use node_with_aoth.Orders.Tables.{Status, pending_inventory, OrdersDb}
use node_with_aoth.Orders.Create.{Runtime, Outcome, conflict, replayed, created, create_order}

-- `request.headers[name]`, which Node gives as undefined, a text or an array of texts.
pub data HeaderValue : Type 0 where
  absent : HeaderValue
  one : String → HeaderValue
  many : List String → HeaderValue

pub record OrderRequest : Type 0 where
  pub body : RawBody
  pub user_sub : HeaderValue
  pub idempotency_key : HeaderValue
  pub id : String

pub data ReplyBody : Type 0 where
  message : String → ReplyBody
  order : String → Status → ReplyBody
  replayed_order : String → Status → ReplyBody

-- `reply.code(code).send(body)`
pub record Response : Type 0 where
  pub code : ℕ
  pub body : ReplyBody

-- The text of a header, where `!value || typeof value !== "string"` is false.
abbrev pub header_text : HeaderValue → Option String
header_text absent = none
header_text (one s) = if s == "" then none else some s
header_text (many ss) = none

abbrev pub respond : Outcome → Response
respond conflict = record {
  code = 409;
  body = message "Idempotency-Key reuse with different request payload is not allowed";
}
respond (replayed i st) = record { code = 200; body = replayed_order i st }
respond (created i) = record { code = 202; body = order i pending_inventory }

-- `orderCreateSchema.parse(request.body)`, which throws on a body that it refuses.
abbrev pub parsed : Option OrderBody → Result OrderBody
parsed none = err invalid_body
parsed (some body) = ok body

module _ (rt : Runtime) (f : Faults) (order_id : String) (ids : Fresh) where
  -- The controller after the schema: its two guards, and the call of the service.
  unfoldable pub create_if_complete :
      String → OrderBody → Option String → Option String → Action OrdersDb Response
  create_if_complete id body none key =
      pure (record { code = 400; body = message "Missing x-user-sub" })
  create_if_complete id body (some user_sub) none =
      pure (record { code = 400; body = message "Missing Idempotency-Key header" })
  create_if_complete id body (some user_sub) (some key) = do
    outcome ←
        create_order rt f order_id ids
          (record { body = body; user_sub = user_sub; idempotency_key = key; correlation_id = id })
    pure (respond outcome)

  unfoldable pub create_order_controller : OrderRequest → Action OrdersDb Response
  unfolding create_if_complete
  create_order_controller request = do
    body ← lift (parsed (parse_order_create request.body))
    create_if_complete request.id body (header_text request.user_sub)
        (header_text request.idempotency_key)
