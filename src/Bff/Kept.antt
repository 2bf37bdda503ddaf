-- ===== src/Bff/Kept.antt =====
-- What the statements of apps/bff keep, all of its requests keep.
use node_with_aoth.Prelude.{ℕ, String, not, Option, none, some, includes, map, ltb, ◌==◌, ◌-◌}
use node_with_aoth.Shared.{or_else, get_or}
use node_with_aoth.Database.Action.{Error, Action, not_null}
use node_with_aoth.Database.Preserves.{
  Preserves, Preserves-gets, Preserves-lift, Preserves-pure, Preserves-modify, Preserves-bind,
  Preserves-if, Preserves-lifted,
}
use node_with_aoth.Identity.Tables.{Session, IdentityDb}
use node_with_aoth.Identity.Secrets.{Crypto, decrypt_secret}
use node_with_aoth.Identity.Tokens.{
  refresh_auth0_tokens, exchange_authorization_code, verify_id_token, revoke_refresh_token,
}
use node_with_aoth.Bff.Repository.{
  query, AppSession, Draws, QueryFaults, TokenUpdate, UserSession, GroupMembership, upsert_user,
  insert_session, insert_member, revoke_row, revoke_session, new_session,
  upsert_user_group_membership, update_row, decrypted, load_session, update_session_tokens,
  create_user_session,
}
use node_with_aoth.Bff.Http.{Platform, LoginTx, BffRequest, BffReply}
use node_with_aoth.Bff.Sessions.{
  nonempty, found_session, signed_session, refresh_session, ensure_loaded, ensure_fresh_session,
  require_session, require_csrf, build_session_view, refresh_window_ms, next_refresh_token,
  token_update,
}
use node_with_aoth.Bff.Auth.{
  user_session, finish_login, with_tx, with_signed, with_query, callback_controller,
  session_controller, refresh_controller, logout_controller, assign_group_membership_controller,
}
use node_with_aoth.Bff.Routes.{
  Route, auth_session, auth_refresh, auth_logout, group_memberships, orders, route_controller,
  handle, Step, logs_in, asks, Reach, here, next,
}

-- One field for each statement that writes.
pub record Kept {κ} (P : IdentityDb → Type κ) : Type κ where
  pub users :
      (i sub email : String) (name : Option String) → Preserves P (upsert_user i sub email name)
  pub members : (u : String) (code : Option String) → Preserves P (insert_member u code)
  pub opened : (s : Session) → Preserves P (insert_session s)
  pub updated :
      (c : Crypto) (env_key : String) (ids : Draws) (t : TokenUpdate) (db : IdentityDb)
      → P db
      → P (record db { sessions = map (update_row c env_key ids t) db.sessions })
  pub revoked :
      (i : String) (now : ℕ) (db : IdentityDb)
      → P db
      → P (record db { sessions = map (revoke_row i now) db.sessions })

module _ {κ} {P : IdentityDb → Type κ} (k : Kept P) where
  Preserves-query :
      {A : Type 0} (f : Option Error) {m : Action IdentityDb A}
      → Preserves P m
      → Preserves P (query f m)
  Preserves-query none h = h
  Preserves-query (some e) h = record { at = λ s x. x }

  membership-Preserves :
      (f : QueryFaults) (i : String) (body : GroupMembership)
      → Preserves P (upsert_user_group_membership f i body)
  unfolding upsert_user_group_membership
  membership-Preserves f i body =
      Preserves-bind
        (Preserves-query f.user (
          Preserves-lifted (not_null body.auth0_sub) λ sub.
            Preserves-lifted (not_null body.email)
              λ email. k.users i sub email (or_else body.display_name body.email)))
        λ u. Preserves-query f.insert (k.members u body.group_code)

  module _ (p : Platform) where
    load_session-Preserves :
        (f : Option Error) (i : String)
        → Preserves P (load_session p.crypto p.env.encryption_key f i)
    unfolding load_session
    load_session-Preserves f i =
        Preserves-bind (Preserves-query f (Preserves-gets _)) λ row. after row
      where
        after :
            (row : Option AppSession) → Preserves P (decrypted p.crypto p.env.encryption_key row)
        after none = Preserves-pure none
        after (some row) =
            Preserves-lifted (decrypt_secret p.crypto p.env.encryption_key row.access_token)
              λ token. Preserves-pure _

    update_session_tokens-Preserves :
        (f : Option Error) (ids : Draws) (t : TokenUpdate)
        → Preserves P (update_session_tokens p.crypto p.env.encryption_key f ids t)
    unfolding update_session_tokens
    update_session_tokens-Preserves f ids t =
        Preserves-query f (Preserves-modify _ (k.updated p.crypto p.env.encryption_key ids t))

    create_user_session-Preserves :
        (f : QueryFaults) (ids : Draws) (now : ℕ) (input : UserSession)
        → Preserves P (create_user_session p.crypto p.env.encryption_key f ids now input)
    unfolding create_user_session
    create_user_session-Preserves f ids now input =
        Preserves-bind
          (Preserves-query f.user
            (k.users ids.user_id input.auth0_sub input.email (some input.display_name)))
          λ u.
            Preserves-bind
              (Preserves-query f.insert
                (k.opened (new_session p.crypto p.env.encryption_key ids now input u)))
              λ x. Preserves-pure _

    refresh_session-Preserves :
        (f : QueryFaults) (ids : Draws) (now : ℕ) (i : String) (session : AppSession)
        → Preserves P (refresh_session p f ids now i session)
    unfolding refresh_session
    refresh_session-Preserves f ids now i session =
        Preserves-lifted
          (decrypt_secret p.crypto p.env.encryption_key session.refresh_token_ciphertext)
          λ token. Preserves-lifted (refresh_auth0_tokens p.env.auth0 p.auth0 token) λ tokens.
            Preserves-lifted (next_refresh_token p session tokens.refresh_token) λ kept.
              Preserves-bind
                (update_session_tokens-Preserves f.update ids
                  (token_update p session now tokens kept))
                λ x. load_session-Preserves f.reload i

    ensure_fresh_session-Preserves :
        (f : QueryFaults) (ids : Draws) (now : ℕ) (i : String)
        → Preserves P (ensure_fresh_session p f ids now i)
    unfolding ensure_fresh_session
    ensure_fresh_session-Preserves f ids now i =
        Preserves-bind (load_session-Preserves f.load i) λ session. after session
      where
        after : (o : Option AppSession) → Preserves P (ensure_loaded p f ids now i o)
        after none = Preserves-pure none
        after (some session) =
            Preserves-if (ltb (refresh_window_ms p) (session.access_token_expires_at - now))
              (Preserves-pure (some session)) (refresh_session-Preserves f ids now i session)

    require_session-Preserves :
        (f : QueryFaults) (ids : Draws) (now : ℕ) (request : BffRequest)
        (controller : AppSession → Action IdentityDb BffReply)
        → ((session : AppSession) → Preserves P (controller session))
        → Preserves P (require_session p f ids now request controller)
    unfolding require_session
    require_session-Preserves f ids now request controller h =
        signed (nonempty (p.cookies.unsign (get_or request.session_cookie "")))
      where
        found : (o : Option AppSession) → Preserves P (found_session controller o)
        found none = Preserves-pure _
        found (some session) = h session

        signed : (o : Option String) → Preserves P (signed_session p f ids now controller o)
        signed none = Preserves-pure _
        signed (some i) =
            Preserves-bind (ensure_fresh_session-Preserves f ids now i) λ session. found session

    finish_login-Preserves :
        (f : QueryFaults) (ids : Draws) (now : ℕ) (csrf_token code : String) (tx : LoginTx)
        → Preserves P (finish_login p f ids now csrf_token code tx)
    unfolding finish_login
    finish_login-Preserves f ids now csrf_token code tx =
        Preserves-lifted (exchange_authorization_code p.env.auth0 p.auth0 code tx.verifier)
          λ tokens.
            Preserves-lifted (verify_id_token p.env.auth0 p.auth0 tokens.id_token tx.nonce)
              λ claims.
                Preserves-bind
                  (create_user_session-Preserves f ids now
                    (user_session p now csrf_token tokens claims))
                  λ i. Preserves-pure _

    callback_controller-Preserves :
        (f : QueryFaults) (ids : Draws) (now : ℕ) (csrf_token : String) (request : BffRequest)
        → Preserves P (callback_controller p f ids now csrf_token request)
    unfolding callback_controller
    callback_controller-Preserves f ids now csrf_token request =
        queried (nonempty request.code) (nonempty request.state)
      where
        tx_read :
            (code state : String) (o : Option LoginTx)
            → Preserves P (with_tx p f ids now csrf_token code state o)
        tx_read code state none = Preserves-lift _
        tx_read code state (some tx) =
            Preserves-if (not (tx.state == state)) (Preserves-pure _)
              (finish_login-Preserves f ids now csrf_token code tx)

        signed :
            (code state : String) (o : Option String)
            → Preserves P (with_signed p f ids now csrf_token code state o)
        signed code state none = Preserves-pure _
        signed code state (some value) = tx_read code state (p.cookies.parse value)

        queried :
            (code state : Option String)
            → Preserves P (with_query p f ids now request csrf_token code state)
        queried none state = Preserves-pure _
        queried (some code) none = Preserves-pure _
        queried (some code) (some state) =
            signed code state (nonempty (p.cookies.unsign (get_or request.auth0_tx "")))

    route_controller-Preserves :
        (route : Route) (f : QueryFaults) (ids : Draws) (now : ℕ) (request : BffRequest)
        (session : AppSession)
        → Preserves P (route_controller p route f ids now request session)
    unfolding session_controller build_session_view refresh_controller logout_controller
        revoke_session assign_group_membership_controller
    route_controller-Preserves auth_session f ids now request session =
        Preserves-bind
          (Preserves-bind (Preserves-query f.rights (Preserves-gets _)) λ rights. Preserves-pure _)
          λ view. Preserves-pure _
    route_controller-Preserves auth_refresh f ids now request session =
        Preserves-if (require_csrf request session)
          (Preserves-bind (ensure_fresh_session-Preserves f ids now session.id)
            λ fresh. Preserves-pure _)
          (Preserves-pure _)
    route_controller-Preserves auth_logout f ids now request session =
        Preserves-if (require_csrf request session)
          (Preserves-lifted
            (decrypt_secret p.crypto p.env.encryption_key session.refresh_token_ciphertext)
            λ token. Preserves-lifted (revoke_refresh_token p.env.auth0 p.auth0 token) λ x.
              Preserves-bind
                (Preserves-query f.revoke (Preserves-modify _ (k.revoked session.id now)))
                λ y. Preserves-pure _)
          (Preserves-pure _)
    route_controller-Preserves group_memberships f ids now request session =
        Preserves-if (require_csrf request session)
          (Preserves-bind (Preserves-query f.rights (Preserves-gets _)) λ rights.
            Preserves-if (not (includes "MODIFY" rights.privileges)) (Preserves-pure _) (
              Preserves-bind (membership-Preserves f ids.user_id request.membership)
                λ x. Preserves-pure _))
          (Preserves-pure _)
    route_controller-Preserves (orders reply) f ids now request session = Preserves-pure reply

    Step-Kept : {s t : IdentityDb} → Step p s t → P s → P t
    unfolding handle
    Step-Kept {s} (logs_in f ids now csrf_token request e) h =
        rw e ((callback_controller-Preserves f ids now csrf_token request).at s h)
    Step-Kept {s} (asks f ids g more now route request e) h = rw e (
        (require_session-Preserves f ids now request _
            (λ session. route_controller-Preserves route g more now request session)).at
          s h)

    -- Any sequence of requests.
    pub Reach-Kept : {s t : IdentityDb} → Reach p s t → P s → P t
    Reach-Kept here h = h
    Reach-Kept (next r step) h = Step-Kept step (Reach-Kept r h)
