-- ===== src/Gateway/Forward.antt =====
-- controllers/order.controller.ts and services/order-forward.service.ts of apps/api-gateway. The HTTP
-- client behind its circuit breaker is a parameter: it answers, or the call fails.
use node_with_aoth.Prelude.{ℕ, String, Option, none, some, [], ◌∷◌}
use node_with_aoth.Shared.{get_or, Headers, get_header, spread}
use node_with_aoth.Shared.{Number}
use node_with_aoth.Shared.Schema.{OrderBody, RawBody, parse_order_create, parse_report_limit}
use node_with_aoth.Shared.Schema.Reparse.{json_body}
use node_with_aoth.Orders.Controller.{HeaderValue, absent, one, header_text}
use node_with_aoth.Gateway.Authz.{Auth}

-- A request to order-service as `fetch` is given it. `limit` is the number in the query of
-- `/internal/orders?limit=…`.
pub record Forwarded : Type 0 where
  pub url : String
  pub headers : Headers
  pub body : Option RawBody
  pub limit : Option Number

-- `request.headers[name]` at the receiver of a request that was sent with the headers `hs`, all of
-- whose names are in lower case.
abbrev pub received : String → Headers → HeaderValue
received name hs = elim (get_header name hs) [ none ↦ absent | some value ↦ one value ]

-- `genReqId`: the correlation header, or the id `new` that `crypto.randomUUID()` gives.
abbrev pub request_id : HeaderValue → String → String
request_id (one i) new = i
request_id _ new = new

-- The body of a request without one.
abbrev pub no_body : RawBody
no_body = record { item_sku = none; quantity = none; total_amount = none; currency = none }

abbrev pub body_or_none : Option RawBody → RawBody
body_or_none none = no_body
body_or_none (some body) = body

-- A response, as the controllers read it.
pub record HttpResponse : Type 0 where
  pub status : ℕ
  pub body : String
  pub content_type : Option String

-- What a controller does: it throws (`refused` by a schema), replies, or forwards.
pub data Forwarding (A : Type 0) : Type 0 where
  invalid : Forwarding A
  replies : ℕ → Forwarding A
  forwards : A → Forwarding A

pub record GatewayRequest : Type 0 where
  pub body : RawBody
  pub idempotency_key : HeaderValue
  pub id : String
  pub limit : Option Number

-- `forward`, up to the response: the headers of `init`, and the request's id over them.
abbrev pub forward : String → String → Headers → Option RawBody → Option Number → Forwarded
forward path correlation_id headers body limit = record {
  url = path;
  headers = spread headers (("x-correlation-id", correlation_id) ∷ []);
  body = body;
  limit = limit;
}

abbrev pub order_forward :
    String → GatewayRequest → Auth → OrderBody → Option String → Forwarding Forwarded
order_forward url request auth body none = replies 400
order_forward url request auth body (some key) = forwards (
    forward url request.id
      (("content-type", "application/json")
        ∷ ("x-user-sub", auth.sub)
        ∷ ("idempotency-key", key)
        ∷ [])
      (some (json_body body)) none)

abbrev pub forward_parsed : String → GatewayRequest → Auth → Option OrderBody → Forwarding Forwarded
forward_parsed url request auth none = invalid
forward_parsed url request auth (some body) =
    order_forward url request auth body (header_text request.idempotency_key)

-- `createOrderController`; `url` is `buildOrderServiceUrl("/internal/orders")`.
unfoldable pub create_order_forward : String → GatewayRequest → Auth → Forwarding Forwarded
create_order_forward url request auth =
    forward_parsed url request auth (parse_order_create request.body)

abbrev pub report_forward : String → GatewayRequest → Auth → Option Number → Forwarding Forwarded
report_forward url request auth none = invalid
report_forward url request auth (some limit) =
    forwards (forward url request.id (("x-user-sub", auth.sub) ∷ []) none (some limit))

-- `listOrderReportsController`
unfoldable pub list_reports_forward : String → GatewayRequest → Auth → Forwarding Forwarded
list_reports_forward url request auth =
    report_forward url request auth (parse_report_limit request.limit)

-- The reply that `forward` makes of a response, and the controllers send on.
pub record GatewayReply : Type 0 where
  pub code : ℕ
  pub content_type : String
  pub body : String

abbrev pub reply_of : HttpResponse → GatewayReply
reply_of response = record {
  code = response.status;
  content_type = get_or response.content_type "application/json";
  body = response.body;
}
