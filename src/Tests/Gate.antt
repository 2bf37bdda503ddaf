-- ===== src/Tests/Gate.antt =====
-- A request with a bearer token, at a gateway whose user may only read.
use node_with_aoth.Prelude.{none, ◌≡◌, refl, ◌↔◌, String, some, [], ◌∷◌, ◌==◌, if◌then◌else◌}
use node_with_aoth.Identity.Tables.{IdentityDb}
use node_with_aoth.Identity.Authorizations.{get_user_authorizations, authorization_rows}
use node_with_aoth.Gateway.Authz.{Verified, refused, accepted, Auth, goes_on, replied, pre_handlers}
use node_with_aoth.Gateway.Access.{Passes, pre_handlers-Passes}

abbrev db : IdentityDb
db = record {
  users =
      record {
        id = "u1";
        auth0_sub = "auth0|ann";
        email = "ann@local.invalid";
        display_name = none;
      }
      ∷ [];
  groups = record { id = "g1"; code = "READERS" } ∷ record { id = "g2"; code = "BUYERS" } ∷ [];
  privileges =
      record { id = "p1"; code = "READ" } ∷ record { id = "p2"; code = "ORDER_CREATE" } ∷ [];
  user_group = ("u1", "g1") ∷ [];
  group_privileges = ("g1", "p1") ∷ ("g2", "p1") ∷ ("g2", "p2") ∷ [];
  sessions = [];
}

-- One token is good.
abbrev verify : String → Verified
verify token = if token == "t1" then accepted (some "auth0|ann") else refused

pre_handlers-Passes_example :
    ((auth : Auth) × (pre_handlers db verify "READ" (some "Bearer t1") ≡ goes_on auth))
    ↔ ((auth : Auth) × Passes db verify "READ" (some "Bearer t1") auth)
pre_handlers-Passes_example = pre_handlers-Passes db verify "READ" (some "Bearer t1")

may_read :
    pre_handlers db verify "READ" (some "Bearer t1")
    ≡ goes_on (record { sub = "auth0|ann"; privileges = "READ" ∷ []; groups = "READERS" ∷ [] })
unfolding get_user_authorizations authorization_rows
may_read = refl

may_not_order : pre_handlers db verify "ORDER_CREATE" (some "Bearer t1") ≡ replied 403
unfolding get_user_authorizations authorization_rows
may_not_order = refl

unauthenticated : pre_handlers db verify "READ" (some "Basic t1") ≡ replied 401
unauthenticated = refl
