-- ===== src/Bff/Admin.antt =====
-- What an assignment of a group membership needs, and what it gives.
use node_with_aoth.Prelude.{
  ◌≡◌, ◌≢◌, refl, sym, ap, subst, ==_iff, ◌⊎◌, inl, inr, String, Bool, true, false, not, Option,
  none, some, includes, arith, Bool-cases, if◌then◌else◌,
}
use node_with_aoth.Database.Action.{Error, Result, ok, pure, gets, ◌>>=◌, ◌>>◌}
use node_with_aoth.Database.Preserves.{>>=-eq-ok}
use node_with_aoth.Identity.Tables.{IdentityDb}
use node_with_aoth.Identity.Authorizations.{Authorizations, get_user_authorizations}
use node_with_aoth.Identity.Granted.{Granted, privileges-Granted}
use node_with_aoth.Bff.Repository.{
  query, AppSession, Draws, QueryFaults, upsert_user_group_membership,
}
use node_with_aoth.Bff.Http.{BffRequest, done, message}
use node_with_aoth.Bff.Sessions.{csrf_matches, require_csrf}
use node_with_aoth.Orders.Controller.{HeaderValue, absent, one, many}
use node_with_aoth.Bff.Auth.{assign_if_allowed, assign_group_membership_controller}
use node_with_aoth.Gateway.Authz.{Verified, accepted, Auth, goes_on, bearer_token, pre_handlers}
use node_with_aoth.Bff.Membership.{Stored, query-eq-ok, membership-Stored, Gives, Stored-Passes}

-- The header, the cookie and the session have one CSRF token, which is not the empty text.
pub record SameToken (request : BffRequest) (session : AppSession) : Type 0 where
  pub token : String
  pub nonempty : token ≢ ""
  pub in_header : request.csrf_header ≡ one token
  pub in_cookie : request.csrf_cookie ≡ some token
  pub in_session : session.csrf_token ≡ token

pub csrf-SameToken :
    (request : BffRequest) (session : AppSession) (header : HeaderValue) (cookie : Option String)
    → request.csrf_header ≡ header
    → request.csrf_cookie ≡ cookie
    → csrf_matches header cookie session.csrf_token ≡ true
    → SameToken request session
csrf-SameToken request session absent cookie h c e = absurd (cc)
csrf-SameToken request session (many headers) cookie h c e = absurd (cc)
csrf-SameToken request session (one header) none h c e = absurd (ground arith)
csrf-SameToken request session (one header) (some value) h c e = record {
  token = header;
  nonempty = λ empty. ground (arith, ==_iff header "");
  in_header = h;
  in_cookie = cc (c, ap (λ (x : String). some x) same_cookie);
  in_session = sym same_session;
}
  where
    same_cookie : value ≡ header
    same_cookie = ground (arith, ==_iff value header)

    same_session : header ≡ session.csrf_token
    same_session = ground (arith, ==_iff header session.csrf_token)

-- Whatever fails, an assignment changes nothing unless the header and the cookie of its request
-- have one text that is not empty, the CSRF token of the session, and the session's user is in a
-- group that has the privilege MODIFY.
pub assign_group_membership_controller-Granted :
    (f : QueryFaults) (ids : Draws) (request : BffRequest) (session : AppSession) (s : IdentityDb)
    → ((assign_group_membership_controller f ids request session s).1 ≡ s)
      ⊎ (SameToken request session × Granted s session.auth0_sub "MODIFY")
unfolding assign_group_membership_controller
assign_group_membership_controller-Granted f ids request session s =
    elim (Bool-cases (require_csrf request session)) [
      | inr no_csrf ↦ inl (rw no_csrf refl)
      | inl csrf ↦ by_rights f.rights csrf
    ]
  where
    by_rights :
        (e : Option Error)
        → require_csrf request session ≡ true
        → (((if require_csrf request session
                then (query e
                      (gets λ (db : IdentityDb). get_user_authorizations db session.auth0_sub)
                    >>= assign_if_allowed f ids request)
                else pure (message 403 "CSRF validation failed"))
              s).1
            ≡ s)
          ⊎ (SameToken request session × Granted s session.auth0_sub "MODIFY")
    by_rights (some e) csrf = inl (rw csrf refl)
    by_rights none csrf =
        elim (Bool-cases
          (includes "MODIFY" (get_user_authorizations s session.auth0_sub).privileges)) [
            | inr refused ↦ inl (rw (csrf, refused) refl)
            | inl granted ↦ inr (
              csrf-SameToken request session request.csrf_header request.csrf_cookie refl refl csrf,
              (privileges-Granted s session.auth0_sub "MODIFY").0 granted,
            )
          ]

assign-Stored :
    (f : QueryFaults) (ids : Draws) (request : BffRequest) (session : AppSession) (sub : String)
    (s t : IdentityDb)
    → request.membership.auth0_sub ≡ some sub
    → assign_group_membership_controller f ids request session s ≡ (ok done, t)
    → Stored request.membership sub s t
unfolding assign_group_membership_controller
assign-Stored f ids request session sub s t named h =
    elim (Bool-cases (require_csrf request session)) [
      | inr no_csrf ↦ absurd (ground arith)
      | inl csrf ↦
          let (rights, u, e1, e2) =
            >>=-eq-ok
              (query f.rights
                (gets (λ (db : IdentityDb). get_user_authorizations db session.auth0_sub)))
              (assign_if_allowed f ids request) s
              (subst
                (λ b.
                  (if b
                      then (query f.rights (
                            gets
                              (λ (db : IdentityDb). get_user_authorizations db session.auth0_sub))
                          >>= assign_if_allowed f ids request)
                      else pure (message 403 "CSRF validation failed"))
                    s
                  ≡ (ok done, t))
                csrf h) in
          let same : s ≡ u =
            ap (λ (x : Result Authorizations × IdentityDb). x.1) (query-eq-ok f.rights _ s e1) in
          subst (λ v. Stored request.membership sub v t) (sym same)
            (by_rights u (includes "MODIFY" rights.privileges) e2)
    ]
  where
    by_rights :
        (u : IdentityDb) (b : Bool)
        → (if not b
              then pure (message 403 "Insufficient privileges")
              else (upsert_user_group_membership f ids.user_id request.membership >> pure done))
            u
          ≡ (ok done, t)
        → Stored request.membership sub u t
    by_rights u false k = absurd (cc)
    by_rights u true k =
        let (x, v, e3, e4) =
          >>=-eq-ok (upsert_user_group_membership f ids.user_id request.membership) (λ _. pure done)
            u k in
        let same : v ≡ t = cc in
        subst (Stored request.membership sub u) same
          (membership-Stored f ids.user_id request.membership sub u v x named e3)

-- After an assignment was answered, each request that comes to the gateway with a token of the user
-- that was named goes on to the routes whose privilege the group has.
pub assign-Passes :
    (f : QueryFaults) (ids : Draws) (request : BffRequest) (session : AppSession) (s t : IdentityDb)
    (sub code privilege : String) (verify : String → Verified) (header : Option String)
    (token : String)
    → assign_group_membership_controller f ids request session s ≡ (ok done, t)
    → request.membership.auth0_sub ≡ some sub
    → request.membership.group_code ≡ some code
    → Gives s code privilege
    → bearer_token header ≡ some token
    → verify token ≡ accepted (some sub)
    → (auth : Auth) × (pre_handlers t verify privilege header ≡ goes_on auth)
assign-Passes f ids request session s t sub code privilege verify header token h named =
    Stored-Passes request.membership sub s t (assign-Stored f ids request session sub s t named h)
      code privilege verify header token
