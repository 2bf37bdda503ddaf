-- ===== src/Identity/Granted.antt =====
-- Which privileges `getUserAuthorizations` gives to a user.
use mathlib.Core.List.Memᴰ.{head, eq_of_singleton}
use node_with_aoth.Prelude.{
  ◌≡◌, refl, sym, ap, subst, ◌∙◌, ◌↔◌, String, true, map, includes, Memᴰ, ==_iff,
}
use node_with_aoth.Identity.Tables.{User, Coded, IdentityDb}
use node_with_aoth.Identity.Authorizations.{authorization_rows, get_user_authorizations}
use node_with_aoth.Identity.Rows.{join_in, join_out, includes-distinct, includes_in, includes_out}

-- The user is a member of a group that has the privilege.
pub record Granted (db : IdentityDb) (sub code : String) : Type 0 where
  pub user : User
  pub member : String × String
  pub group : Coded
  pub grant : String × String
  pub privilege : Coded
  pub is_user : Memᴰ user db.users
  pub is_member : Memᴰ member db.user_group
  pub is_group : Memᴰ group db.groups
  pub is_grant : Memᴰ grant db.group_privileges
  pub is_privilege : Memᴰ privilege db.privileges
  pub of_sub : user.auth0_sub ≡ sub
  pub of_user : member.0 ≡ user.id
  pub of_member : group.id ≡ member.1
  pub of_group : grant.0 ≡ group.id
  pub of_grant : privilege.id ≡ grant.1
  pub has_code : privilege.code ≡ code

module _ (db : IdentityDb) (sub : String) where
  row-Granted : (r : String × String) → Memᴰ r (authorization_rows db sub) → Granted db sub r.1
  unfolding authorization_rows
  row-Granted r m =
      let (u, is_user, of_sub, m1) = join_out _ _ r db.users m in
      let (l, is_member, of_user, m2) = join_out _ _ r db.user_group m1 in
      let (g, is_group, of_member, m3) = join_out _ _ r db.groups m2 in
      let (k, is_grant, of_group, m4) = join_out _ _ r db.group_privileges m3 in
      let (p, is_privilege, of_grant, m5) = join_out _ _ r db.privileges m4 in
      record {
        user = u;
        member = l;
        group = g;
        grant = k;
        privilege = p;
        is_user = is_user;
        is_member = is_member;
        is_group = is_group;
        is_grant = is_grant;
        is_privilege = is_privilege;
        of_sub = (==_iff u.auth0_sub sub).0 of_sub;
        of_user = (==_iff l.0 u.id).0 of_user;
        of_member = (==_iff g.id l.1).0 of_member;
        of_group = (==_iff k.0 g.id).0 of_group;
        of_grant = (==_iff p.id k.1).0 of_grant;
        has_code = sym (ap (λ (x : String × String). x.1) (eq_of_singleton m5));
      }

  Granted-row :
      (code : String)
      → Granted db sub code
      → (r : String × String) × Memᴰ r (authorization_rows db sub) × (r.1 ≡ code)
  unfolding authorization_rows
  Granted-row code a = (
    (a.group.code, a.privilege.code),
    join_in _ _ a.user _ db.users a.is_user ((==_iff a.user.auth0_sub sub).1 a.of_sub) (
        join_in _ _ a.member _ db.user_group a.is_member ((==_iff a.member.0 a.user.id).1 a.of_user)
          (join_in _ _ a.group _ db.groups a.is_group ((==_iff a.group.id a.member.1).1 a.of_member)
            (join_in _ _ a.grant _ db.group_privileges a.is_grant
              ((==_iff a.grant.0 a.group.id).1 a.of_group)
              (join_in _ _ a.privilege _ db.privileges a.is_privilege
                ((==_iff a.privilege.id a.grant.1).1 a.of_grant) (head refl))))),
    a.has_code,
  )

  -- The privileges that the user has, and no other, are in the answer.
  pub privileges-Granted :
      (code : String)
      → (includes code (get_user_authorizations db sub).privileges ≡ true) ↔ Granted db sub code
  unfolding get_user_authorizations
  privileges-Granted code = (
    λ e.
        let (r, m, c) = includes_out code (authorization_rows db sub) (
          sym (
            includes-distinct code (map (λ (x : String × String). x.1) (authorization_rows db sub)))
          ∙ e) in
        subst (Granted db sub) c (row-Granted r m),
    λ a.
        let (r, m, c) = Granted-row code a in
        includes-distinct code (map (λ (x : String × String). x.1) (authorization_rows db sub))
        ∙ includes_in code r (authorization_rows db sub) m c,
  )
