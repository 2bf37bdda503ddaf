-- ===== src/Platform/Entry.antt =====
-- An order request from the browser to order-service: apps/bff, apps/api-gateway and
-- `createOrderController` in a row.
use node_with_aoth.Prelude.{
  ◌≡◌, ◌≢◌, refl, ap, subst, String, true, Option, none, some, [], ◌∷◌, ◌==◌, ==_iff, arith,
  Bool-cases, inl, inr, ==_ne, if◌then◌else◌,
}
use node_with_aoth.Shared.{get_or, get_header}
use node_with_aoth.Shared.Schema.{OrderBody, parse_order_create}
use node_with_aoth.Shared.Schema.Reparse.{json_body, parse_order_create-json_body}
use node_with_aoth.Database.Action.{pure, ◌>>=◌}
use node_with_aoth.Database.Transaction.{Faults}
use node_with_aoth.Service.Tables.{Fresh}
use node_with_aoth.Identity.Tables.{IdentityDb}
use node_with_aoth.Identity.Granted.{Granted}
use node_with_aoth.Orders.Tables.{OrdersDb}
use node_with_aoth.Orders.Create.{Runtime, create_order}
use node_with_aoth.Orders.Controller.{
  HeaderValue, absent, one, many, OrderRequest, header_text, respond, create_if_complete,
  create_order_controller,
}
use node_with_aoth.Gateway.Authz.{Verified, accepted, Auth, goes_on, bearer_token, pre_handlers}
use node_with_aoth.Gateway.Access.{goes_on-Passes}
use node_with_aoth.Bff.Repository.{AppSession}
use node_with_aoth.Bff.Http.{BffRequest}
use node_with_aoth.Gateway.Forward.{
  Forwarding, forwards, Forwarded, forward, received, request_id, body_or_none,
  create_order_forward,
}
use node_with_aoth.Bff.Sessions.{require_csrf}
use node_with_aoth.Bff.Admin.{SameToken, csrf-SameToken}
use node_with_aoth.Bff.Orders.{
  GatewayCall, post_orders, proxy_to_gateway, proxy_order, proxy_keyed, gateway_request,
  create_order_proxy,
}

-- What the BFF has checked of a request that it passes on: the CSRF token, the idempotency key, which
-- is a text that is not empty, and the body, by the schema.
pub record Proxied (request : BffRequest) (session : AppSession) : Type 0 where
  pub body : OrderBody
  pub key : String
  pub csrf : SameToken request session
  pub parses : parse_order_create request.body ≡ some body
  pub has_key : request.idempotency_key ≡ one key
  pub named : key ≢ ""

-- The call that such a request leads to.
abbrev call_of :
    (request : BffRequest) (session : AppSession) → Proxied request session → GatewayCall
call_of request session k =
    proxy_to_gateway post_orders request session (("idempotency-key", k.key) ∷ [])
      (some (json_body k.body)) none

header_text-one : (h : HeaderValue) (s : String) → header_text h ≡ some s → (h ≡ one s) × (s ≢ "")
header_text-one absent s e = absurd (cc)
header_text-one (many xs) s e = absurd (cc)
header_text-one (one x) s e = elim (Bool-cases (x == "")) [
  | inl empty ↦ absurd (ground arith)
  | inr full ↦ let same : x ≡ s = ground arith in (ap one same, λ n. ground (arith, ==_iff x ""))
]

create_order_proxy-Proxied :
    (request : BffRequest) (session : AppSession) (call : GatewayCall)
    → create_order_proxy request session ≡ forwards call
    → (k : Proxied request session) × (call ≡ call_of request session k)
unfolding create_order_proxy
create_order_proxy-Proxied request session call h =
    elim (Bool-cases (require_csrf request session)) [
      | inr no_csrf ↦ absurd (ground arith)
      | inl csrf ↦ by_key csrf (header_text request.idempotency_key) refl (
          subst
            (λ b.
              (if b
                then proxy_keyed request session (header_text request.idempotency_key)
                else Forwarding.replies 403)
              ≡ forwards call)
            csrf h)
    ]
  where
    by_body :
        (key : String) (o : Option OrderBody)
        → require_csrf request session ≡ true
        → header_text request.idempotency_key ≡ some key
        → parse_order_create request.body ≡ o
        → proxy_order request session key o ≡ forwards call
        → (k : Proxied request session) × (call ≡ call_of request session k)
    by_body key none csrf k e x = absurd (cc)
    by_body key (some body) csrf k e x =
        let (sent, named) = header_text-one request.idempotency_key key k in
        (
          record {
            body = body;
            key = key;
            csrf =
                csrf-SameToken request session request.csrf_header request.csrf_cookie refl refl
                  csrf;
            parses = e;
            has_key = sent;
            named = named;
          },
          cc,
        )

    by_key :
        require_csrf request session ≡ true
        → (o : Option String) → header_text request.idempotency_key ≡ o
        → proxy_keyed request session o ≡ forwards call
        → (k : Proxied request session) × (call ≡ call_of request session k)
    by_key csrf none k x = absurd (cc)
    by_key csrf (some key) k x = by_body key (parse_order_create request.body) csrf k refl x

-- A forwarded request as order-service's framework hands it to `createOrderController`; `new` is the
-- id that it draws for a request without the correlation header.
abbrev pub order_request : Forwarded → String → OrderRequest
order_request sent new = record {
  body = body_or_none sent.body;
  user_sub = received "x-user-sub" sent.headers;
  idempotency_key = received "idempotency-key" sent.headers;
  id = request_id (received "x-correlation-id" sent.headers) new;
}

-- An order request that the BFF passes on and the gateway lets through, with a subject that is not
-- the empty text, is one that the session's CSRF token came with. The gateway takes the token of the
-- session from the call's headers, and its user is in a group that has ORDER_CREATE; it forwards
-- the request; and what order-service does with what it reads from the forwarded headers and body
-- is what `createOrder` does for the subject of that token with the body, the idempotency key and
-- the request id that the browser's request had.
pub order_path :
    (request : BffRequest) (session : AppSession) (call : GatewayCall) (db : IdentityDb)
    (verify : String → Verified) (auth : Auth) (url drawn : String)
    → create_order_proxy request session ≡ forwards call
    → pre_handlers db verify "ORDER_CREATE" (get_header "authorization" call.headers) ≡ goes_on auth
    → auth.sub ≢ ""
    → (k : Proxied request session) × ((claimed : Option String) × (verify session.access_token
          ≡ accepted claimed)
        × (auth.sub ≡ get_or claimed "undefined"))
      × Granted db auth.sub "ORDER_CREATE"
      × ((sent : Forwarded) × (create_order_forward url (gateway_request call drawn) auth
            ≡ forwards sent)
          × (sent.url ≡ url)
          × ((rt : Runtime) (f : Faults) (order_id : String) (ids : Fresh) (new : String)
                (s : OrdersDb)
              → create_order_controller rt f order_id ids (order_request sent new) s
                ≡ (create_order rt f order_id ids (record {
                  body = k.body;
                  user_sub = auth.sub;
                  idempotency_key = k.key;
                  correlation_id = request.id;
                })
                      >>= λ outcome. pure (respond outcome))
                    s))
unfolding create_order_forward create_order_controller create_if_complete
order_path request session call db verify auth url drawn h passes named =
    let (k, same) = create_order_proxy-Proxied request session call h in
    let a =
      goes_on-Passes db verify "ORDER_CREATE" (get_header "authorization" call.headers) auth
        passes in
    let again = parse_order_create-json_body request.body k.body k.parses in
    let key_again = ==_ne k.key "" k.named in
    let token : a.token ≡ session.access_token = cc (
      a.bears,
      ap (λ (c : GatewayCall). bearer_token (get_header "authorization" c.headers)) same,
    ) in
    (
      k,
      (a.claimed, subst (λ t. verify t ≡ accepted a.claimed) token a.verified, a.is_claimed),
      a.granted,
      (
        forwarded k,
        rw (same, again, key_again) refl,
        refl,
        λ rt f order_id ids new s. rw (again, key_again, ==_ne auth.sub "" named) refl,
      ),
    )
  where
    forwarded : Proxied request session → Forwarded
    forwarded k =
        forward url request.id
          (("content-type", "application/json")
            ∷ ("x-user-sub", auth.sub)
            ∷ ("idempotency-key", k.key)
            ∷ [])
          (some (json_body k.body)) none
