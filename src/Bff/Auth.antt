-- ===== src/Bff/Auth.antt =====
-- controllers/auth.controller.ts and controllers/admin.controller.ts of apps/bff.
use node_with_aoth.Prelude.{
  ℕ, ◌+◌, ◌*◌, String, not, Option, none, some, [], ◌∷◌, includes, ◌==◌, if◌then◌else◌,
}
use node_with_aoth.Shared.{or_else, get_or}
use node_with_aoth.Database.Action.{bad_json, err, Action, pure, lift, gets, ◌>>=◌, ◌>>◌}
use node_with_aoth.Identity.Tables.{IdentityDb}
use node_with_aoth.Identity.Authorizations.{Authorizations, get_user_authorizations}
use node_with_aoth.Identity.Hex.{append_text}
use node_with_aoth.Identity.Secrets.{decrypt_secret}
use node_with_aoth.Identity.Tokens.{
  TokenSet, Claims, build_authorize_url, build_logout_url, verify_id_token,
  exchange_authorization_code, revoke_refresh_token,
}
use node_with_aoth.Bff.Repository.{
  query, AppSession, Draws, QueryFaults, UserSession, create_user_session, revoke_session,
  upsert_user_group_membership,
}
use node_with_aoth.Bff.Http.{
  Platform, LoginTx, BffRequest, BffReply, message, redirect, session_view, refreshed, logged_out,
  done, cookie_options, csrf_options,
}
use node_with_aoth.Bff.Sessions.{nonempty, ensure_fresh_session, build_session_view, after_csrf}

module _ (p : Platform) where
  -- `challenge` is the PKCE challenge of `tx.verifier`.
  unfoldable pub login_controller : LoginTx → String → BffReply
  login_controller tx challenge =
      redirect []
        (record {
          name = "auth0_tx";
          value = p.cookies.stringify tx;
          options = cookie_options p.env 600;
        }
          ∷ [])
        (build_authorize_url p.env.auth0 p.auth0 tx.state tx.nonce challenge)

  -- The argument of `createUserSession`.
  abbrev pub user_session : ℕ → String → TokenSet → Claims → UserSession
  user_session now csrf_token tokens claims =
      let sub = get_or claims.sub "undefined" in
      record {
        auth0_sub = sub;
        email = get_or claims.email (append_text sub "@local.invalid");
        display_name = get_or (or_else claims.name claims.email) sub;
        refresh_token = get_or tokens.refresh_token "undefined";
        access_token = tokens.access_token;
        access_token_expires_at = now + tokens.expires_in * 1000;
        id_token = get_or tokens.id_token "undefined";
        csrf_token = csrf_token;
      }

  abbrev pub logged_in : String → String → BffReply
  logged_in session_id csrf_token =
      redirect ("auth0_tx" ∷ [])
        (record {
          name = p.env.session_cookie_name;
          value = session_id;
          options = cookie_options p.env (60 * 60 * 24 * 30);
        }
          ∷ record {
            name = p.env.csrf_cookie_name;
            value = csrf_token;
            options = csrf_options p.env;
          }
          ∷ [])
        "/"

  module _ (f : QueryFaults) (ids : Draws) (now : ℕ) where
    -- After the state was compared.
    unfoldable pub finish_login : String → String → LoginTx → Action IdentityDb BffReply
    finish_login csrf_token code tx = do
      tokens ← lift (exchange_authorization_code p.env.auth0 p.auth0 code tx.verifier)
      claims ← lift (verify_id_token p.env.auth0 p.auth0 tokens.id_token tx.nonce)
      session_id ←
          create_user_session p.crypto p.env.encryption_key f ids now
            (user_session now csrf_token tokens claims)
      pure (logged_in session_id csrf_token)

    abbrev pub with_tx : String → String → String → Option LoginTx → Action IdentityDb BffReply
    with_tx csrf_token code state none = lift (err bad_json)
    with_tx csrf_token code state (some tx) =
        if not (tx.state == state)
        then pure (message 400 "Invalid state")
        else finish_login csrf_token code tx

    abbrev pub with_signed : String → String → String → Option String → Action IdentityDb BffReply
    with_signed csrf_token code state none = pure (message 400 "Missing login transaction")
    with_signed csrf_token code state (some value) =
        with_tx csrf_token code state (p.cookies.parse value)

    abbrev pub with_query :
        BffRequest → String → Option String → Option String → Action IdentityDb BffReply
    with_query request csrf_token (some code) (some state) =
        with_signed csrf_token code state (nonempty (p.cookies.unsign (get_or request.auth0_tx "")))
    with_query request csrf_token _ _ = pure (message 400 "Missing code or state")

    unfoldable pub callback_controller : String → BffRequest → Action IdentityDb BffReply
    callback_controller csrf_token request =
        with_query request csrf_token (nonempty request.code) (nonempty request.state)

    unfoldable pub session_controller : AppSession → Action IdentityDb BffReply
    session_controller session = do
      view ← build_session_view p f.rights now session
      pure (session_view view)

    abbrev pub expiry : Option AppSession → Option ℕ
    expiry none = none
    expiry (some session) = some session.access_token_expires_at

    unfoldable pub refresh_controller : BffRequest → AppSession → Action IdentityDb BffReply
    refresh_controller request session =
        after_csrf request session
          (do fresh ← ensure_fresh_session p f ids now session.id; pure (refreshed (expiry fresh)))

    unfoldable pub logout_controller : BffRequest → AppSession → Action IdentityDb BffReply
    logout_controller request session = after_csrf request session (do
      token ← lift (decrypt_secret p.crypto p.env.encryption_key session.refresh_token_ciphertext)
      lift (revoke_refresh_token p.env.auth0 p.auth0 token)
      revoke_session f.revoke now session.id
      pure (
          logged_out (p.env.session_cookie_name ∷ p.env.csrf_cookie_name ∷ [])
            (build_logout_url p.env.auth0 p.auth0)))

-- controllers/admin.controller.ts
abbrev pub assign_if_allowed :
    QueryFaults → Draws → BffRequest → Authorizations → Action IdentityDb BffReply
assign_if_allowed f ids request authorizations =
    if not (includes "MODIFY" authorizations.privileges)
    then pure (message 403 "Insufficient privileges")
    else (do upsert_user_group_membership f ids.user_id request.membership; pure done)

unfoldable pub assign_group_membership_controller :
    QueryFaults → Draws → BffRequest → AppSession → Action IdentityDb BffReply
assign_group_membership_controller f ids request session = after_csrf request session (do
  authorizations ← query f.rights (gets λ db. get_user_authorizations db session.auth0_sub)
  assign_if_allowed f ids request authorizations)
