-- ===== src/Bff/Orders.antt =====
-- controllers/order.controller.ts and services/gateway.service.ts of apps/bff: what it asks the
-- gateway for.
use node_with_aoth.Prelude.{ℕ, String, Option, none, some, [], ◌∷◌, if◌then◌else◌, ◌==◌}
use node_with_aoth.Shared.{get_or, Headers, spread}
use node_with_aoth.Shared.{Number}
use node_with_aoth.Shared.Schema.{OrderBody, RawBody, parse_order_create, parse_report_limit}
use node_with_aoth.Identity.Hex.{append_text}
use node_with_aoth.Orders.Controller.{header_text}
use node_with_aoth.Gateway.Forward.{
  Forwarding, invalid, replies, forwards, GatewayRequest, HttpResponse, received, request_id,
  body_or_none,
}
use node_with_aoth.Shared.Schema.Reparse.{json_body}
use node_with_aoth.Bff.Repository.{AppSession}
use node_with_aoth.Bff.Http.{BffRequest}
use node_with_aoth.Bff.Sessions.{require_csrf}

-- A call of the gateway as `fetch` is given it: the path, with the number of its query apart.
pub data GatewayRoute : Type 0 where
  post_orders get_reports : GatewayRoute

pub record GatewayCall : Type 0 where
  pub route : GatewayRoute
  pub headers : Headers
  pub body : Option RawBody
  pub limit : Option Number

-- `proxyToGateway`, up to the response: the three headers, and those of `init` over them.
abbrev pub proxy_to_gateway :
    GatewayRoute → BffRequest → AppSession → Headers → Option RawBody → Option Number → GatewayCall
proxy_to_gateway route request session headers body limit = record {
  route = route;
  headers =
      spread
        (("authorization", append_text "Bearer " session.access_token)
          ∷ ("content-type", "application/json")
          ∷ ("x-correlation-id", request.id)
          ∷ [])
        headers;
  body = body;
  limit = limit;
}

-- The call as the gateway's framework hands it to a controller; `new` is the id that it draws for a
-- request without the correlation header.
abbrev pub gateway_request : GatewayCall → String → GatewayRequest
gateway_request call new = record {
  body = body_or_none call.body;
  idempotency_key = received "idempotency-key" call.headers;
  id = request_id (received "x-correlation-id" call.headers) new;
  limit = call.limit;
}

-- `createOrderController`: the header, the body, and the call.
abbrev pub proxy_order :
    BffRequest → AppSession → String → Option OrderBody → Forwarding GatewayCall
proxy_order request session key none = invalid
proxy_order request session key (some body) = forwards (
    proxy_to_gateway post_orders request session (("idempotency-key", key) ∷ [])
      (some (json_body body)) none)

abbrev pub proxy_keyed : BffRequest → AppSession → Option String → Forwarding GatewayCall
proxy_keyed request session none = replies 400
proxy_keyed request session (some key) =
    proxy_order request session key (parse_order_create request.body)

unfoldable pub create_order_proxy : BffRequest → AppSession → Forwarding GatewayCall
create_order_proxy request session =
    if require_csrf request session
    then proxy_keyed request session (header_text request.idempotency_key)
    else replies 403

-- `listOrderReportsController`, for the query's `limit`.
abbrev pub proxy_reports : BffRequest → AppSession → Option Number → Forwarding GatewayCall
proxy_reports request session none = invalid
proxy_reports request session (some limit) =
    forwards (proxy_to_gateway get_reports request session [] none (some limit))

unfoldable pub list_reports_proxy : BffRequest → AppSession → Option Number → Forwarding GatewayCall
list_reports_proxy request session limit = proxy_reports request session (parse_report_limit limit)

-- The reply that is made of the gateway's response; an empty text is sent without a type.
pub data ProxyReply : Type 0 where
  empty : ℕ → ProxyReply
  full : ℕ → String → String → ProxyReply

unfoldable pub proxy_reply : HttpResponse → ProxyReply
proxy_reply response =
    if response.body == ""
    then empty response.status
    else full response.status (get_or response.content_type "application/json") response.body
