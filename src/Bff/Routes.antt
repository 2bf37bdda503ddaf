-- ===== src/Bff/Routes.antt =====
-- The routes of apps/bff (routes/index.ts), and how the identity tables change with the requests.
use node_with_aoth.Prelude.{ℕ, ◌≡◌, String}
use node_with_aoth.Database.Action.{Action, pure}
use node_with_aoth.Identity.Tables.{IdentityDb}
use node_with_aoth.Bff.Repository.{AppSession, Draws, QueryFaults}
use node_with_aoth.Bff.Http.{Platform, BffRequest, BffReply}
use node_with_aoth.Bff.Sessions.{require_session}
use node_with_aoth.Bff.Auth.{
  callback_controller, session_controller, refresh_controller, logout_controller,
  assign_group_membership_controller,
}

-- The routes behind `requireSession`. The two order routes ask the gateway, whose reply it is, and
-- do not use the identity tables.
pub data Route : Type 0 where
  auth_session auth_refresh auth_logout group_memberships : Route
  orders : BffReply → Route

module _ (p : Platform) where
  abbrev pub route_controller :
      Route → QueryFaults → Draws → ℕ → BffRequest → AppSession → Action IdentityDb BffReply
  route_controller auth_session f ids now request session = session_controller p f ids now session
  route_controller auth_refresh f ids now request session =
      refresh_controller p f ids now request session
  route_controller auth_logout f ids now request session =
      logout_controller p f ids now request session
  route_controller group_memberships f ids now request session =
      assign_group_membership_controller f ids request session
  route_controller (orders reply) f ids now request session = pure reply

  -- A request of a route behind `requireSession`: its check, and the controller.
  unfoldable pub handle :
      QueryFaults
      → Draws
      → QueryFaults
      → Draws
      → ℕ
      → Route
      → BffRequest
      → Action IdentityDb BffReply
  handle f ids g more now route request =
      require_session p f ids now request (route_controller route g more now request)

  -- One request, with any failures.
  pub data Step (s t : IdentityDb) : Type 0 where
    logs_in :
        (f : QueryFaults) (ids : Draws) (now : ℕ) (csrf_token : String) (request : BffRequest)
        → t ≡ (callback_controller p f ids now csrf_token request s).1
        → Step s t
    asks :
        (f : QueryFaults) (ids : Draws) (g : QueryFaults) (more : Draws) (now : ℕ) (route : Route)
        (request : BffRequest)
        → t ≡ (handle f ids g more now route request s).1
        → Step s t

  pub data Reach (s : IdentityDb) : IdentityDb → Type 0 where
    here : Reach s s
    next : {t u : IdentityDb} → Reach s t → Step t u → Reach s u
