-- ===== src/Tests/Members.antt =====
-- A manager makes a user a buyer, who then orders; and the seed script.
use mathlib.Core.List.Memᴰ.{head, tail}
use node_with_aoth.Prelude.{
  ◌≡◌, ◌≤◌, refl, String, Option, none, some, List, [], ◌∷◌, ◌++◌, ◌⊎◌, length,
}
use mathlib.Core.List.{reverse}
use node_with_aoth.Shared.{of_nat, get_or}
use node_with_aoth.Shared.Schema.{text, number, OrderBody, parse_order_create, parse_report_limit}
use node_with_aoth.Shared.Schema.Reparse.{json_body}
use node_with_aoth.Database.Action.{ok, pure, ◌>>=◌}
use node_with_aoth.Database.Transaction.{Faults}
use node_with_aoth.Service.Tables.{Fresh}
use node_with_aoth.Identity.Tables.{Coded, IdentityDb}
use node_with_aoth.Identity.Authorizations.{get_user_authorizations, authorization_rows}
use node_with_aoth.Identity.Granted.{Granted}
use node_with_aoth.Orders.Tables.{Order, OrdersDb}
use node_with_aoth.Orders.Create.{Runtime, create_order}
use node_with_aoth.Orders.Controller.{one, respond, create_order_controller}
use node_with_aoth.Orders.Listing.{list_orders_controller, list_orders_bound}
use node_with_aoth.Gateway.Authz.{Verified, accepted, Auth, goes_on, pre_handlers}
use node_with_aoth.Gateway.Forward.{forwards, Forwarded, create_order_forward}
use node_with_aoth.Bff.Repository.{
  AppSession, Draws, no_query_faults, upsert_user, insert_member, upsert_user_group_membership,
}
use node_with_aoth.Bff.Http.{BffRequest, done}
use node_with_aoth.Bff.Auth.{assign_group_membership_controller}
use node_with_aoth.Bff.Admin.{SameToken, assign_group_membership_controller-Granted, assign-Passes}
use node_with_aoth.Bff.Membership.{Gives}
use node_with_aoth.Bff.Orders.{
  GatewayCall, gateway_request, create_order_proxy, post_orders, proxy_to_gateway,
}
use node_with_aoth.Bff.Seed.{seed, seed-Passes}
use node_with_aoth.Platform.Entry.{Proxied, order_request, order_path}

abbrev buyers : Coded
buyers = record { id = "g2"; code = "BUYERS" }

abbrev may_order : Coded
may_order = record { id = "p2"; code = "ORDER_CREATE" }

abbrev db : IdentityDb
db = record {
  users =
      record {
        id = "u1";
        auth0_sub = "auth0|ann";
        email = "ann@local.invalid";
        display_name = none;
      }
      ∷ [];
  groups = record { id = "g1"; code = "MANAGERS" } ∷ buyers ∷ [];
  privileges = record { id = "p1"; code = "MODIFY" } ∷ may_order ∷ [];
  user_group = ("u1", "g1") ∷ [];
  group_privileges = ("g1", "p1") ∷ ("g2", "p2") ∷ [];
  sessions = [];
}

abbrev ids : Draws
ids = record { user_id = "u2"; session_id = "s2"; refresh_iv = []; access_iv = [] }

abbrev session : AppSession
session = record {
  id = "s1";
  access_token = "t1";
  access_token_expires_at = 600000;
  refresh_token_ciphertext = "";
  refresh_token_expires_at = none;
  csrf_token = "f1";
  auth0_sub = "auth0|ann";
  email = "ann@local.invalid";
  display_name = none;
}

abbrev request : BffRequest
request = record {
  id = "q1";
  csrf_header = one "f1";
  idempotency_key = one "k1";
  session_cookie = some "s1";
  csrf_cookie = some "f1";
  auth0_tx = none;
  code = none;
  state = none;
  membership = record {
    auth0_sub = some "auth0|bob";
    email = some "bob@local.invalid";
    display_name = none;
    group_code = some "BUYERS";
  };
  body = record {
    item_sku = some (text "book");
    quantity = some (number (of_nat 2));
    total_amount = some (number (of_nat 20));
    currency = some (text "usd");
  };
}

assign_group_membership_controller-Granted_example :
    ((assign_group_membership_controller no_query_faults ids request session db).1 ≡ db)
    ⊎ (SameToken request session × Granted db "auth0|ann" "MODIFY")
assign_group_membership_controller-Granted_example =
    assign_group_membership_controller-Granted no_query_faults ids request session db

abbrev joined : IdentityDb
joined = (assign_group_membership_controller no_query_faults ids request session db).1

assignment :
    assign_group_membership_controller no_query_faults ids request session db ≡ (ok done, joined)
unfolding assign_group_membership_controller upsert_user_group_membership upsert_user insert_member
    get_user_authorizations authorization_rows
assignment = refl

abbrev verify : String → Verified
verify token = accepted (some "auth0|bob")

buyers_order : Gives db "BUYERS" "ORDER_CREATE"
buyers_order = record {
  group = buyers;
  grant = ("g2", "p2");
  right = may_order;
  is_group = tail (head refl);
  is_grant = tail (head refl);
  is_right = tail (head refl);
  has_code = refl;
  of_group = refl;
  of_grant = refl;
  named = refl;
}

assign-Passes_example :
    (auth : Auth) × (pre_handlers joined verify "ORDER_CREATE" (some "Bearer t1") ≡ goes_on auth)
assign-Passes_example =
    assign-Passes no_query_faults ids request session db joined "auth0|bob" "BUYERS" "ORDER_CREATE"
      verify (some "Bearer t1") "t1" assignment refl refl buyers_order refl refl

abbrev bob : Auth
bob = record { sub = "auth0|bob"; privileges = "ORDER_CREATE" ∷ []; groups = "BUYERS" ∷ [] }

bob_passes : pre_handlers joined verify "ORDER_CREATE" (some "Bearer t1") ≡ goes_on bob
unfolding assign_group_membership_controller upsert_user_group_membership upsert_user insert_member
    get_user_authorizations authorization_rows
bob_passes = refl

abbrev ordered : OrderBody
ordered = record {
  item_sku = "book";
  quantity = of_nat 2;
  total_amount = of_nat 20;
  currency = "usd";
}

abbrev call : GatewayCall
call =
    proxy_to_gateway post_orders request session (("idempotency-key", "k1") ∷ [])
      (some (json_body ordered)) none

proxied : create_order_proxy request session ≡ forwards call
unfolding create_order_proxy parse_order_create
proxied = refl

order_path_example :
    (k : Proxied request session) × ((claimed : Option String) × (verify "t1" ≡ accepted claimed)
      × ("auth0|bob" ≡ get_or claimed "undefined"))
    × Granted joined "auth0|bob" "ORDER_CREATE"
    × ((sent : Forwarded) × (create_order_forward "http://orders/internal/orders"
            (gateway_request call "q2")
            bob
          ≡ forwards sent)
        × (sent.url ≡ "http://orders/internal/orders")
        × ((rt : Runtime) (f : Faults) (order_id : String) (fresh : Fresh) (new : String)
              (s : OrdersDb)
            → create_order_controller rt f order_id fresh (order_request sent new) s
              ≡ (create_order rt f order_id fresh (record {
                body = k.body;
                user_sub = "auth0|bob";
                idempotency_key = k.key;
                correlation_id = "q1";
              })
                    >>= λ outcome. pure (respond outcome))
                  s))
order_path_example =
    order_path request session call joined verify bob "http://orders/internal/orders" "q2" proxied
      bob_passes (λ e. cc (e))

abbrev no_orders : OrdersDb
no_orders = record { store = []; outbox = []; processed = [] }

given_limit : parse_report_limit (some (of_nat 7)) ≡ some (of_nat 7)
unfolding parse_report_limit
given_limit = refl

list_orders_bound_example :
    (rows older : List Order) × (list_orders_controller (some (of_nat 7)) no_orders
      ≡ (ok rows, no_orders))
    × (length rows ≤ 100)
    × (reverse no_orders.store ≡ rows ++ older)
list_orders_bound_example = list_orders_bound (some (of_nat 7)) (of_nat 7) no_orders given_limit

abbrev seeded : IdentityDb
seeded =
    (seed (λ s. s) no_query_faults "u9" (some "auth0|bob") (some "bob@local.invalid")
      (some "BUYERS") db).1

seeding :
    seed
      (λ s. s)
      no_query_faults
      "u9"
      (some "auth0|bob")
      (some "bob@local.invalid")
      (some "BUYERS")
      db
    ≡ (ok tt, seeded)
unfolding seed upsert_user insert_member
seeding = refl

seed-Passes_example :
    (auth : Auth) × (pre_handlers seeded verify "ORDER_CREATE" (some "Bearer t1") ≡ goes_on auth)
seed-Passes_example =
    seed-Passes (λ s. s) no_query_faults "u9" "auth0|bob" "bob@local.invalid" (some "BUYERS") db
      seeded "ORDER_CREATE" verify (some "Bearer t1") "t1" (λ e. cc (e)) (λ e. cc (e)) seeding
      buyers_order refl refl
