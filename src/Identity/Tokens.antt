-- ===== src/Identity/Tokens.antt =====
-- The calls of Auth0 in packages/auth/src/index.ts: the login and logout URLs, the token endpoint, the
-- revocation and the check of an ID token. Auth0 itself, `jwtVerify` and the encoding of a query
-- string are parameters.
use node_with_aoth.Prelude.{
  ℕ, String, Bool, true, false, not, Option, none, some, List, [], ◌∷◌, if◌then◌else◌,
}
use node_with_aoth.Shared.{is_text}
use node_with_aoth.Database.Action.{Result, ok, err, auth0_failed, invalid_token}
use node_with_aoth.Identity.Hex.{append_text}

-- What the code reads of `env` about Auth0.
pub record Auth0Env : Type 0 where
  pub domain : String
  pub client_id : String
  pub client_secret : String
  pub audience : String
  pub redirect_uri : String
  pub post_logout_redirect_uri : String
  pub scope : String

-- A token response. `expires_in` is a number of seconds; a refresh token comes only with the scope
-- `offline_access`, and an ID token only with `openid`.
pub record TokenSet : Type 0 where
  pub access_token : String
  pub refresh_token : Option String
  pub id_token : Option String
  pub expires_in : ℕ

-- The claims that the code reads of an ID token.
pub record Claims : Type 0 where
  pub sub : Option String
  pub email : Option String
  pub name : Option String
  pub nonce : Option String

pub data TokenRequest : Type 0 where
  authorization_code :
      (client_id client_secret code_verifier code redirect_uri : String) → TokenRequest
  refresh_token : (client_id client_secret token : String) → TokenRequest

pub record Revocation : Type 0 where
  pub client_id : String
  pub client_secret : String
  pub token : String

-- `none` is a call that fails, or that the circuit breaker refuses. `revoke` tells `response.ok`;
-- `check_jwt` is `jwtVerify` with the tenant's keys and issuer, for a token and an audience.
pub record Auth0 : Type 0 where
  pub token_endpoint : TokenRequest → Option TokenSet
  pub revoke : Revocation → Option Bool
  pub check_jwt : String → String → Option Claims
  pub query_string : List (String × String) → String

abbrev pub verified_claims : String → Option Claims → Result Claims
verified_claims nonce none = err invalid_token
verified_claims nonce (some payload) =
    if not (is_text payload.nonce nonce) then err invalid_token else ok payload

abbrev answer_of : Option TokenSet → Result TokenSet
answer_of none = err auth0_failed
answer_of (some tokens) = ok tokens

abbrev revoked_if : Option Bool → Result (Unit {0})
revoked_if none = err auth0_failed
revoked_if (some false) = err auth0_failed
revoked_if (some true) = ok tt

module _ (env : Auth0Env) (auth0 : Auth0) where
  -- `verifyIdToken(tokenSet.id_token as string, nonce)`, where an absent token is refused.
  unfoldable pub verify_id_token : Option String → String → Result Claims
  verify_id_token none nonce = err invalid_token
  verify_id_token (some id_token) nonce =
      verified_claims nonce (auth0.check_jwt id_token env.client_id)

  abbrev pub build_authorize_url : (state nonce code_challenge : String) → String
  build_authorize_url state nonce code_challenge = append_text "https://" (
      append_text env.domain (
        append_text "/authorize?" (
          auth0.query_string (
            ("client_id", env.client_id)
            ∷ ("response_type", "code")
            ∷ ("redirect_uri", env.redirect_uri)
            ∷ ("scope", env.scope)
            ∷ ("audience", env.audience)
            ∷ ("state", state)
            ∷ ("nonce", nonce)
            ∷ ("code_challenge", code_challenge)
            ∷ ("code_challenge_method", "S256")
            ∷ []))))

  abbrev pub build_logout_url : String
  build_logout_url = append_text "https://" (
      append_text env.domain (
        append_text "/v2/logout?" (
          auth0.query_string
            (("client_id", env.client_id) ∷ ("returnTo", env.post_logout_redirect_uri) ∷ []))))

  unfoldable pub exchange_authorization_code : String → String → Result TokenSet
  exchange_authorization_code code code_verifier = answer_of (
      auth0.token_endpoint
        (authorization_code env.client_id env.client_secret code_verifier code env.redirect_uri))

  unfoldable pub refresh_auth0_tokens : String → Result TokenSet
  refresh_auth0_tokens token =
      answer_of (auth0.token_endpoint (refresh_token env.client_id env.client_secret token))

  unfoldable pub revoke_refresh_token : String → Result (Unit {0})
  revoke_refresh_token token = revoked_if (
      auth0.revoke
        (record { client_id = env.client_id; client_secret = env.client_secret; token = token }))
