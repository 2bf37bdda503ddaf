-- ===== src/Gateway/Authz.antt =====
-- `authorize` and `requirePrivilege` of apps/api-gateway/src/services/authz.service.ts. The check of
-- a token, `jwtVerify`, is a parameter.
use node_with_aoth.Prelude.{ℕ, String, not, Option, none, some, List, includes, ◌==◌, if◌then◌else◌}
use node_with_aoth.Shared.{get_or}
use node_with_aoth.Identity.Tables.{IdentityDb}
use node_with_aoth.Identity.Authorizations.{get_user_authorizations}

-- What `verifyAccessToken` does with a token: it throws, or returns a payload with its `sub`.
pub data Verified : Type 0 where
  refused : Verified
  accepted : Option String → Verified

-- `request.auth`
pub record Auth : Type 0 where
  pub sub : String
  pub privileges : List String
  pub groups : List String

-- How a handler before the route ends: the request goes on, a reply was sent, or it threw.
pub data Guarded (A : Type 0) : Type 0 where
  goes_on : A → Guarded A
  replied : ℕ → Guarded A
  threw : Guarded A

-- The rest of a text after a prefix that it starts with.
abbrev pub after_prefix : String → String → Option String
after_prefix String.[] s = some s
after_prefix (String.◌∷◌ c p) String.[] = none
after_prefix (String.◌∷◌ c p) (String.◌∷◌ d s) =
    let rest = after_prefix p s in
    if String.◌∷◌ c String.[] == String.◌∷◌ d String.[] then rest else none

-- `authHeader?.startsWith("Bearer ")`, and the token behind it.
abbrev pub bearer_token : Option String → Option String
bearer_token none = none
bearer_token (some header) = after_prefix "Bearer " header

module _ (db : IdentityDb) where
  -- `String(payload.sub)`
  abbrev pub authorize_verified : Verified → Guarded Auth
  authorize_verified refused = threw
  authorize_verified (accepted sub) =
      let auth0_sub = get_or sub "undefined" in
      let authorizations = get_user_authorizations db auth0_sub in
      goes_on (record {
        sub = auth0_sub;
        privileges = authorizations.privileges;
        groups = authorizations.groups;
      })

  abbrev pub authorize_bearer : (String → Verified) → Option String → Guarded Auth
  authorize_bearer verify none = replied 401
  authorize_bearer verify (some token) = authorize_verified (verify token)

  abbrev pub authorize : (String → Verified) → Option String → Guarded Auth
  authorize verify header = authorize_bearer verify (bearer_token header)

abbrev pub require_privilege : String → Auth → Guarded Auth
require_privilege privilege auth =
    if not (includes privilege auth.privileges) then replied 403 else goes_on auth

-- The two handlers that a route lists.
abbrev pub then_require : String → Guarded Auth → Guarded Auth
then_require privilege (goes_on auth) = require_privilege privilege auth
then_require privilege (replied code) = replied code
then_require privilege threw = threw

abbrev pub pre_handlers : IdentityDb → (String → Verified) → String → Option String → Guarded Auth
pre_handlers db verify privilege header = then_require privilege (authorize db verify header)
