-- ===== src/Bff/Sessions.antt =====
-- services/session.service.ts of apps/bff.
use node_with_aoth.Prelude.{
  ℕ, ◌+◌, ◌-◌, ◌*◌, String, Bool, false, ◌&&◌, not, Option, none, some, ltb, leb, ◌==◌,
  if◌then◌else◌,
}
use node_with_aoth.Shared.{is_text, get_or}
use node_with_aoth.Database.Action.{Error, Result, ok, Action, pure, lift, gets, ◌>>=◌, ◌>>◌}
use node_with_aoth.Identity.Tables.{IdentityDb}
use node_with_aoth.Identity.Authorizations.{get_user_authorizations}
use node_with_aoth.Identity.Secrets.{decrypt_secret}
use node_with_aoth.Identity.Tokens.{TokenSet, refresh_auth0_tokens}
use node_with_aoth.Orders.Controller.{HeaderValue, absent, one, many}
use node_with_aoth.Bff.Repository.{
  query, AppSession, Draws, QueryFaults, TokenUpdate, load_session, update_session_tokens,
}
use node_with_aoth.Bff.Http.{Platform, BffRequest, SessionView, BffReply, message}

-- `signed.valid && signed.value`
abbrev pub nonempty : Option String → Option String
nonempty none = none
nonempty (some s) = if s == "" then none else some s

abbrev pub found_session :
    (AppSession → Action IdentityDb BffReply) → Option AppSession → Action IdentityDb BffReply
found_session controller none = pure (message 401 "Session expired")
found_session controller (some session) = controller session

module _ (p : Platform) where
  abbrev pub refresh_window_ms : ℕ
  refresh_window_ms = p.env.refresh_window * 1000

  -- `refreshed.refresh_token ?? decryptSecret(session.refresh_token_ciphertext)`
  abbrev pub next_refresh_token : AppSession → Option String → Result String
  next_refresh_token session (some token) = ok token
  next_refresh_token session none =
      decrypt_secret p.crypto p.env.encryption_key session.refresh_token_ciphertext

  abbrev pub token_update : AppSession → ℕ → TokenSet → String → TokenUpdate
  token_update session now tokens refresh_token = record {
    session_id = session.id;
    access_token = tokens.access_token;
    access_token_expires_at = now + tokens.expires_in * 1000;
    refresh_token = refresh_token;
  }

  -- The rest of `ensureFreshSession`, inside the window before the expiry: after the token that is
  -- to be kept is known, after Auth0's answer, and the whole.
  abbrev pub store_tokens :
      QueryFaults
      → Draws
      → ℕ
      → String
      → AppSession
      → TokenSet
      → String
      → Action IdentityDb (Option AppSession)
  store_tokens f ids now i session tokens kept = do
    update_session_tokens p.crypto p.env.encryption_key f.update ids
        (token_update session now tokens kept)
    load_session p.crypto p.env.encryption_key f.reload i

  abbrev pub use_tokens :
      QueryFaults
      → Draws
      → ℕ
      → String
      → AppSession
      → TokenSet
      → Action IdentityDb (Option AppSession)
  use_tokens f ids now i session tokens = do
    kept ← lift (next_refresh_token session tokens.refresh_token)
    store_tokens f ids now i session tokens kept

  abbrev pub use_token :
      QueryFaults → Draws → ℕ → String → AppSession → String → Action IdentityDb (Option AppSession)
  use_token f ids now i session token = do
    tokens ← lift (refresh_auth0_tokens p.env.auth0 p.auth0 token)
    use_tokens f ids now i session tokens

  unfoldable pub refresh_session :
      QueryFaults → Draws → ℕ → String → AppSession → Action IdentityDb (Option AppSession)
  refresh_session f ids now i session = do
    token ← lift (decrypt_secret p.crypto p.env.encryption_key session.refresh_token_ciphertext)
    use_token f ids now i session token

  abbrev pub ensure_loaded :
      QueryFaults → Draws → ℕ → String → Option AppSession → Action IdentityDb (Option AppSession)
  ensure_loaded f ids now i none = pure none
  ensure_loaded f ids now i (some session) =
      if ltb refresh_window_ms (session.access_token_expires_at - now)
      then pure (some session)
      else refresh_session f ids now i session

  -- A difference of instants below zero is in the window, as it is at zero.
  unfoldable pub ensure_fresh_session :
      QueryFaults → Draws → ℕ → String → Action IdentityDb (Option AppSession)
  ensure_fresh_session f ids now i = do
    session ← load_session p.crypto p.env.encryption_key f.load i
    ensure_loaded f ids now i session

  abbrev pub signed_session :
      QueryFaults
      → Draws
      → ℕ
      → (AppSession → Action IdentityDb BffReply)
      → Option String
      → Action IdentityDb BffReply
  signed_session f ids now controller none = pure (message 401 "Unauthenticated")
  signed_session f ids now controller (some i) = do
    session ← ensure_fresh_session f ids now i
    found_session controller session

  -- A route with `preHandler: requireSession`, and then its controller.
  unfoldable pub require_session :
      QueryFaults
      → Draws
      → ℕ
      → BffRequest
      → (AppSession → Action IdentityDb BffReply)
      → Action IdentityDb BffReply
  require_session f ids now request controller =
      signed_session f ids now controller
        (nonempty (p.cookies.unsign (get_or request.session_cookie "")))

  -- `buildSessionView`
  unfoldable pub build_session_view : Option Error → ℕ → AppSession → Action IdentityDb SessionView
  build_session_view failure now session = do
    authorizations ← query failure (gets λ db. get_user_authorizations db session.auth0_sub)
    pure (record {
      sub = session.auth0_sub;
      email = session.email;
      display_name = session.display_name;
      authorizations = authorizations;
      access_token_expires_at = session.access_token_expires_at;
      should_refresh = leb (session.access_token_expires_at - now) refresh_window_ms;
    })

-- `requireCsrf`; an array of header values equals no text.
abbrev pub csrf_matches : HeaderValue → Option String → String → Bool
csrf_matches absent cookie token = false
csrf_matches (one header) cookie token =
    not (header == "") && is_text cookie header && header == token
csrf_matches (many headers) cookie token = false

abbrev pub require_csrf : BffRequest → AppSession → Bool
require_csrf request session =
    csrf_matches request.csrf_header request.csrf_cookie session.csrf_token

abbrev pub csrf_failed : BffReply
csrf_failed = message 403 "CSRF validation failed"

-- `if (!requireCsrf(request, reply)) return;` before the rest of a controller.
abbrev pub after_csrf :
    BffRequest → AppSession → Action IdentityDb BffReply → Action IdentityDb BffReply
after_csrf request session rest = if require_csrf request session then rest else pure csrf_failed
