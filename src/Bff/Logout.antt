-- ===== src/Bff/Logout.antt =====
-- A logout ends the session for good.
use node_with_aoth.Prelude.{
  ℕ, ◌≡◌, ◌≢◌, refl, subst, String, Option, none, some, List, map, arith, ==_ne,
}
use node_with_aoth.Shared.{get_or}
use node_with_aoth.Database.Action.{ok}
use node_with_aoth.Database.Preserves.{>>=-eq-ok}
use node_with_aoth.Identity.Tables.{IdentityDb}
use node_with_aoth.Bff.Repository.{
  AppSession, Draws, QueryFaults, upsert_user, insert_member, revoke_row, revoke_session,
}
use node_with_aoth.Bff.Http.{Platform, BffRequest, message, logged_out}
use node_with_aoth.Bff.Sessions.{
  nonempty, found_session, ensure_fresh_session, signed_session, require_session,
}
use node_with_aoth.Bff.Auth.{logout_controller}
use node_with_aoth.Bff.Routes.{Route, auth_logout, route_controller, handle, Reach}
use node_with_aoth.Bff.Revoked.{
  Closed, Closed-map, insert_session-Closed, update_row-StaysClosed, revoke_row-StaysClosed,
  revoke_row-Closed, load_session-Closed,
}
use node_with_aoth.Bff.Loading.{
  id-Loaded, has_open-Loaded, has_open-has_session, ensure_fresh_session-Loaded,
}
use node_with_aoth.Bff.Kept.{Kept, Reach-Kept}

sessions-upsert_user :
    (i sub email : String) (name : Option String) (db : IdentityDb)
    → (upsert_user i sub email name db).1.sessions ≡ db.sessions
unfolding upsert_user
sessions-upsert_user i sub email name db = ground arith

Closed-Kept : (i : String) → Kept (Closed i)
unfolding insert_member
Closed-Kept i = record {
  users = λ j sub email name. record {
    at = λ db c.
        let same = sessions-upsert_user j sub email name db in
        record { exists = rw same c.exists; closed = rw same c.closed };
  };
  members = λ u code. record { at = λ db c. record { exists = c.exists; closed = c.closed } };
  opened = λ s. record { at = insert_session-Closed i s };
  updated = λ c k ids t db. Closed-map i _ db (update_row-StaysClosed c k ids t);
  revoked = λ j now db. Closed-map i _ db (revoke_row-StaysClosed j now);
}

module _ (p : Platform) where
  -- The cookie of the request is signed, and names the session `i`.
  pub record Presents (request : BffRequest) (i : String) : Type 0 where
    pub signed : p.cookies.unsign (get_or request.session_cookie "") ≡ some i
    pub named : i ≢ ""

  nonempty-Presents :
      {request : BffRequest} {i : String}
      → Presents request i
      → nonempty (p.cookies.unsign (get_or request.session_cookie "")) ≡ some i
  nonempty-Presents {i = i} c = rw (c.signed, ==_ne i "" c.named) refl

  logout_controller_lem :
      (f : QueryFaults) (ids : Draws) (now : ℕ) (request : BffRequest) (session : AppSession)
      (s t : IdentityDb) (names : List String) (url : String)
      → logout_controller p f ids now request session s ≡ (ok (logged_out names url), t)
      → t ≡ record s { sessions = map (revoke_row session.id now) s.sessions }
  unfolding logout_controller revoke_session
  logout_controller_lem f ids now request session s t names url h = ground arith

  module _ (f : QueryFaults) (ids : Draws) (now : ℕ) (request : BffRequest) where
    -- A logout that was answered has closed its session.
    logout-Closed :
        (i : String) (s t : IdentityDb) (names : List String) (url : String)
        → Presents request i
        → (g : QueryFaults) (more : Draws)
        → handle p f ids g more now auth_logout request s ≡ (ok (logged_out names url), t)
        → Closed i t
    unfolding handle require_session
    logout-Closed i s t names url c g more h =
        let (o, u, fresh, rest) =
          >>=-eq-ok (ensure_fresh_session p f ids now i)
            (found_session (route_controller p auth_logout g more now request)) s
            (subst
              (λ x.
                signed_session p f ids now (route_controller p auth_logout g more now request) x s
                ≡ (ok (logged_out names url), t))
              (nonempty-Presents c) h) in
        after o u fresh rest
      where
        after :
            (o : Option AppSession) (u : IdentityDb)
            → ensure_fresh_session p f ids now i s ≡ (ok o, u)
            → found_session (route_controller p auth_logout g more now request) o u
              ≡ (ok (logged_out names url), t)
            → Closed i t
        after none u fresh k = absurd (cc)
        after (some session) u fresh k =
            let l = ensure_fresh_session-Loaded p i f ids now s u session fresh in
            let e : t ≡ record u { sessions = map (revoke_row i now) u.sessions } =
              subst (λ j. t ≡ record u { sessions = map (revoke_row j now) u.sessions })
                (id-Loaded p i l)
                (logout_controller_lem g more now request session u t names url k) in
            rw e (
              revoke_row-Closed i now u (has_open-has_session i u.sessions (has_open-Loaded p i l)))

  -- After a logout of a signed session cookie was answered, whatever requests follow, and whatever
  -- fails in them: each request with a cookie of that session, on any route that needs a session,
  -- is answered 401 and changes nothing, unless the look-up of the session itself fails.
  pub logout-final :
      (f : QueryFaults) (ids : Draws) (g : QueryFaults) (more : Draws) (now : ℕ)
      (request : BffRequest) (i : String) (s t u : IdentityDb) (names : List String) (url : String)
      → Presents request i
      → handle p f ids g more now auth_logout request s ≡ (ok (logged_out names url), t)
      → Reach p t u
      → (f' : QueryFaults) (ids' : Draws) (g' : QueryFaults) (more' : Draws) (now' : ℕ)
        (route : Route) (request' : BffRequest)
      → f'.load ≡ none
      → Presents request' i
      → handle p f' ids' g' more' now' route request' u ≡ (ok (message 401 "Session expired"), u)
  unfolding handle require_session ensure_fresh_session
  logout-final f ids g more now request i s t u names url c h r f' ids' g' more' now' route request'
        fine c' =
      let closed =
        Reach-Kept (Closed-Kept i) p r
          (logout-Closed f ids now request i s t names url c g more h) in
      rw (nonempty-Presents c', fine, load_session-Closed i p.crypto p.env.encryption_key u closed)
        refl
