-- ===== src/Bff/Http.antt =====
-- What the controllers of apps/bff read of a request and say in a reply, and
-- services/cookie.service.ts. Signing, JSON and Auth0 are parameters.
use node_with_aoth.Prelude.{
  ℕ, String, Bool, true, false, Option, none, some, List, ◌==◌, if◌then◌else◌,
}
use node_with_aoth.Shared.Schema.{RawBody}
use node_with_aoth.Identity.Authorizations.{Authorizations}
use node_with_aoth.Identity.Tokens.{Auth0Env, Auth0}
use node_with_aoth.Identity.Secrets.{Crypto}
use node_with_aoth.Orders.Controller.{HeaderValue}
use node_with_aoth.Bff.Repository.{GroupMembership}

-- What the code reads of `env`; `refresh_window` is ACCESS_TOKEN_REFRESH_WINDOW_SECONDS.
pub record BffEnv : Type 0 where
  pub auth0 : Auth0Env
  pub encryption_key : String
  pub session_cookie_name : String
  pub session_cookie_domain : String
  pub csrf_cookie_name : String
  pub refresh_window : ℕ
  pub is_production : Bool

-- The object in the cookie `auth0_tx`.
pub record LoginTx : Type 0 where
  pub verifier : String
  pub state : String
  pub nonce : String

-- @fastify/cookie's signing, `unsign` with `none` where the signature is not valid; and the JSON
-- text of a login transaction, `parse` with `none` where it throws.
pub record Cookies : Type 0 where
  pub sign : String → String
  pub unsign : String → Option String
  pub stringify : LoginTx → String
  pub parse : String → Option LoginTx

-- What the BFF is built on.
pub record Platform : Type 0 where
  pub env : BffEnv
  pub crypto : Crypto
  pub auth0 : Auth0
  pub cookies : Cookies

pub record BffRequest : Type 0 where
  pub id : String
  pub csrf_header : HeaderValue
  pub idempotency_key : HeaderValue
  pub session_cookie : Option String
  pub csrf_cookie : Option String
  pub auth0_tx : Option String
  pub code : Option String
  pub state : Option String
  pub membership : GroupMembership
  pub body : RawBody

pub record CookieOptions : Type 0 where
  pub http_only : Bool
  pub secure : Bool
  pub same_site : String
  pub domain : Option String
  pub path : String
  pub max_age : Option ℕ
  pub signed : Bool

module _ (env : BffEnv) where
  abbrev pub cookie_domain : Option String
  cookie_domain =
      if env.session_cookie_domain == "localhost" then none else some env.session_cookie_domain

  abbrev pub cookie_options : ℕ → CookieOptions
  cookie_options max_age_seconds = record {
    http_only = true;
    secure = env.is_production;
    same_site = "lax";
    domain = cookie_domain;
    path = "/";
    max_age = some max_age_seconds;
    signed = true;
  }

  abbrev pub csrf_options : CookieOptions
  csrf_options = record {
    http_only = false;
    secure = env.is_production;
    same_site = "lax";
    domain = cookie_domain;
    path = "/";
    max_age = none;
    signed = false;
  }

-- A cookie as `setCookie` is given it: `value` is not yet signed.
pub record SetCookie : Type 0 where
  pub name : String
  pub value : String
  pub options : CookieOptions

-- `buildSessionView`; `access_token_expires_at` is the instant of the ISO text.
pub record SessionView : Type 0 where
  pub sub : String
  pub email : String
  pub display_name : Option String
  pub authorizations : Authorizations
  pub access_token_expires_at : ℕ
  pub should_refresh : Bool

-- A reply: a status with a message; a redirection with the cookies that are cleared and set; and
-- the objects that the routes return.
pub data BffReply : Type 0 where
  message : ℕ → String → BffReply
  redirect : List String → List SetCookie → String → BffReply
  session_view : SessionView → BffReply
  refreshed : Option ℕ → BffReply
  logged_out : List String → String → BffReply
  done : BffReply
