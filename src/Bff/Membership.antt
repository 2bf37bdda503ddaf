-- ===== src/Bff/Membership.antt =====
-- What an answered group membership has stored, and what it gives.
use node_with_aoth.Prelude.{◌≡◌, refl, sym, ap, subst, String, Option, none, some, Memᴰ, ==_refl}
use node_with_aoth.Shared.{or_else}
use node_with_aoth.Database.Action.{Error, ok, Action, lift, not_null, ◌>>=◌}
use node_with_aoth.Database.Preserves.{>>=-eq-ok, lift-eq-ok}
use node_with_aoth.Identity.Tables.{Coded, IdentityDb}
use node_with_aoth.Identity.Authorizations.{get_user_authorizations}
use node_with_aoth.Identity.Granted.{Granted}
use node_with_aoth.Bff.Repository.{
  query, QueryFaults, GroupMembership, upsert_user, add_links, insert_member, upsert_profile,
  upsert_user_group_membership,
}
use node_with_aoth.Gateway.Authz.{Verified, accepted, Auth, goes_on, bearer_token, pre_handlers}
use node_with_aoth.Gateway.Access.{pre_handlers-Passes}
use node_with_aoth.Bff.Members.{Upserted, upsert_user-Upserted, add_links-Mem}

pub query-eq-ok :
    {S A : Type 0} (f : Option Error) (m : Action S A) (s : S) {a : A} {t : S}
    → query f m s ≡ (ok a, t)
    → m s ≡ (ok a, t)
query-eq-ok none m s h = h
query-eq-ok (some e) m s h = absurd (cc)

-- What an answered membership has stored.
pub record Stored (body : GroupMembership) (sub : String) (s t : IdentityDb) : Type 0 where
  pub user_id : String
  pub middle : IdentityDb
  pub email : String
  pub upserted : Upserted sub email (or_else body.display_name body.email) user_id s middle
  pub linked : t ≡ record middle {
    user_group = add_links user_id body.group_code middle.groups middle.user_group;
  }

pub membership-Stored :
    (f : QueryFaults) (i : String) (body : GroupMembership) (sub : String) (s t : IdentityDb)
    (x : Unit {0})
    → body.auth0_sub ≡ some sub
    → upsert_user_group_membership f i body s ≡ (ok x, t)
    → Stored body sub s t
unfolding upsert_user_group_membership insert_member
membership-Stored f i body sub s t x named h =
    let (j, u, e1, e2) =
      >>=-eq-ok (query f.user (upsert_profile i body))
        (λ j. query f.insert (insert_member j body.group_code)) s h in
    let (given, e3, e4) =
      lift-eq-ok (not_null body.auth0_sub)
        (λ sub. lift (not_null body.email) >>= λ email.
          upsert_user i sub email (or_else body.display_name body.email))
        s (query-eq-ok f.user (upsert_profile i body) s e1) in
    let (email, e5, e6) =
      lift-eq-ok (not_null body.email)
        (λ email. upsert_user i given email (or_else body.display_name body.email)) s e4 in
    let same : given ≡ sub = cc (e3, ap (λ (o : Option String). not_null o) named) in
    let last = query-eq-ok f.insert (insert_member j body.group_code) u e2 in
    record {
      user_id = j;
      middle = u;
      email = email;
      upserted =
          subst (λ y. Upserted y email (or_else body.display_name body.email) j s u) same
            (upsert_user-Upserted i given email (or_else body.display_name body.email) s u j e6);
      linked = cc;
    }

-- The group of the code has the privilege.
pub record Gives (s : IdentityDb) (code privilege : String) : Type 0 where
  pub group : Coded
  pub grant : String × String
  pub right : Coded
  pub is_group : Memᴰ group s.groups
  pub is_grant : Memᴰ grant s.group_privileges
  pub is_right : Memᴰ right s.privileges
  pub has_code : group.code ≡ code
  pub of_group : grant.0 ≡ group.id
  pub of_grant : right.id ≡ grant.1
  pub named : right.code ≡ privilege

module _ (body : GroupMembership) (sub : String) (s t : IdentityDb) (k : Stored body sub s t) where
  Stored-Granted :
      (code privilege : String)
      → body.group_code ≡ some code
      → Gives s code privilege
      → Granted t sub privilege
  Stored-Granted code privilege of_code g =
      let u = k.upserted in
      let others = u.others in
      record {
        user = u.user;
        member = (k.user_id, g.group.id);
        group = g.group;
        grant = g.grant;
        privilege = g.right;
        is_user = subst (λ (x : IdentityDb). Memᴰ u.user x.users) (sym k.linked) u.is_user;
        is_member =
            subst (λ (x : IdentityDb). Memᴰ (k.user_id, g.group.id) x.user_group) (sym k.linked)
              (add_links-Mem k.user_id body.group_code g.group k.middle.groups k.middle.user_group
                (subst (λ (x : IdentityDb). Memᴰ g.group x.groups) (sym others) g.is_group)
                (rw (of_code, g.has_code) (==_refl code)));
        is_group =
            subst (λ (x : IdentityDb). Memᴰ g.group x.groups) (sym k.linked)
              (subst (λ (x : IdentityDb). Memᴰ g.group x.groups) (sym others) g.is_group);
        is_grant =
            subst (λ (x : IdentityDb). Memᴰ g.grant x.group_privileges) (sym k.linked)
              (subst (λ (x : IdentityDb). Memᴰ g.grant x.group_privileges) (sym others) g.is_grant);
        is_privilege =
            subst (λ (x : IdentityDb). Memᴰ g.right x.privileges) (sym k.linked)
              (subst (λ (x : IdentityDb). Memᴰ g.right x.privileges) (sym others) g.is_right);
        of_sub = u.of_sub;
        of_user = sym u.of_id;
        of_member = refl;
        of_group = g.of_group;
        of_grant = g.of_grant;
        has_code = g.named;
      }

  -- So the gateway lets the user's requests through to the routes of the privilege.
  pub Stored-Passes :
      (code privilege : String) (verify : String → Verified) (header : Option String)
      (token : String)
      → body.group_code ≡ some code
      → Gives s code privilege
      → bearer_token header ≡ some token
      → verify token ≡ accepted (some sub)
      → (auth : Auth) × (pre_handlers t verify privilege header ≡ goes_on auth)
  Stored-Passes code privilege verify header token of_code g bears accepts =
      let rights = get_user_authorizations t sub in
      let auth : Auth = record {
        sub = sub;
        privileges = rights.privileges;
        groups = rights.groups;
      } in
      (pre_handlers-Passes t verify privilege header).1 (
        auth,
        record {
          token = token;
          claimed = some sub;
          bears = bears;
          verified = accepts;
          is_claimed = refl;
          granted = Stored-Granted code privilege of_code g;
        },
      )
