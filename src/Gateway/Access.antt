-- ===== src/Gateway/Access.antt =====
-- Which requests the gateway lets through to a route.
use node_with_aoth.Prelude.{
  ◌≡◌, refl, sym, ap, subst, ◌∙◌, ◌↔◌, String, Bool, true, false, Option, none, some, includes,
  arith,
}
use node_with_aoth.Shared.{get_or}
use node_with_aoth.Identity.Tables.{IdentityDb}
use node_with_aoth.Identity.Authorizations.{get_user_authorizations}
use node_with_aoth.Identity.Granted.{Granted, privileges-Granted}
use node_with_aoth.Gateway.Authz.{
  Verified, refused, accepted, Auth, goes_on, bearer_token, authorize_verified, authorize_bearer,
  then_require, pre_handlers,
}

module _ (db : IdentityDb) (verify : String → Verified) (privilege : String)
    (header : Option String) where
  -- What must be so for the request to pass.
  pub record Passes (auth : Auth) : Type 0 where
    pub token : String
    pub claimed : Option String
    pub bears : bearer_token header ≡ some token
    pub verified : verify token ≡ accepted claimed
    pub is_claimed : auth.sub ≡ get_or claimed "undefined"
    pub granted : Granted db auth.sub privilege

  passed :
      (t : Option String) (v : String → Verified) (auth : Auth)
      → bearer_token header ≡ t
      → ((x : String) → verify x ≡ v x)
      → pre_handlers db verify privilege header ≡ goes_on auth
      → Passes auth
  passed none v auth et ev e = absurd (ground arith)
  passed (some token) v auth et ev e = with_verified (v token) (ev token)
    where
      with_privilege :
          (claimed : Option String) (b : Bool)
          → verify token ≡ accepted claimed
          → includes privilege (get_user_authorizations db (get_or claimed "undefined")).privileges
            ≡ b
          → Passes auth
      with_privilege claimed false k h = absurd (ground arith)
      with_privilege claimed true k h =
          let same : auth.sub ≡ get_or claimed "undefined" = ground arith in
          record {
            token = token;
            claimed = claimed;
            bears = et;
            verified = k;
            is_claimed = same;
            granted =
                subst (λ s. Granted db s privilege) (sym same)
                  ((privileges-Granted db (get_or claimed "undefined") privilege).0 h);
          }

      with_verified : (r : Verified) → verify token ≡ r → Passes auth
      with_verified refused k = absurd (ground arith)
      with_verified (accepted claimed) k = with_privilege claimed _ k refl

  allowed :
      (claimed : Option String)
      → let all = get_user_authorizations db (get_or claimed "undefined") in
        includes privilege all.privileges ≡ true
        → then_require privilege (authorize_verified db (accepted claimed))
          ≡ goes_on (record {
            sub = get_or claimed "undefined";
            privileges = all.privileges;
            groups = all.groups;
          })
  allowed claimed h = rw h refl

  -- What a request that goes on has passed.
  pub goes_on-Passes :
      (auth : Auth) → pre_handlers db verify privilege header ≡ goes_on auth → Passes auth
  goes_on-Passes auth e = passed _ _ auth refl (λ y. refl) e

  -- A request goes on to a route exactly if it has a bearer token that the check accepts, and the
  -- user whom the token names is a member of a group that has the route's privilege.
  pub pre_handlers-Passes :
      ((auth : Auth) × (pre_handlers db verify privilege header ≡ goes_on auth))
      ↔ ((auth : Auth) × Passes auth)
  pre_handlers-Passes = (λ x. (x.0, goes_on-Passes x.0 x.1), λ x. going_on x.1)
    where
      going_on :
          {a : Auth}
          → Passes a
          → (auth : Auth) × (pre_handlers db verify privilege header ≡ goes_on auth)
      going_on {a} k =
          let all = get_user_authorizations db (get_or k.claimed "undefined") in
          (
            record {
              sub = get_or k.claimed "undefined";
              privileges = all.privileges;
              groups = all.groups;
            },
            ap (λ t. then_require privilege (authorize_bearer db verify t)) k.bears
                ∙ ap (λ v. then_require privilege (authorize_verified db v)) k.verified
                ∙ allowed k.claimed (
                    (privileges-Granted db (get_or k.claimed "undefined") privilege).1
                      (subst (λ s. Granted db s privilege) k.is_claimed k.granted)),
          )
