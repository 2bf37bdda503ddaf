-- ===== src/Bff/Seed.antt =====
-- scripts/seed.ts: the first members of the groups. Its statements are those of the repository of
-- apps/bff, spelled again.
use node_with_aoth.Prelude.{
  sym, ◌∙◌, ◌≡◌, ◌≢◌, ◌==◌, refl, String, Option, none, some, ◌||◌, ==_ne, if◌then◌else◌,
}
use node_with_aoth.Shared.{get_or}
use node_with_aoth.Database.Action.{ok, usage, Action, raise, ◌>>=◌}
use node_with_aoth.Identity.Tables.{IdentityDb}
use node_with_aoth.Bff.Repository.{
  query, QueryFaults, upsert_user, insert_member, upsert_user_group_membership, GroupMembership,
}
use node_with_aoth.Gateway.Authz.{Verified, accepted, Auth, goes_on, bearer_token, pre_handlers}
use node_with_aoth.Bff.Membership.{membership-Stored, Gives, Stored-Passes}

-- `to_upper` is `toUpperCase`, and the arguments are those of the command line.
module _ (to_upper : String → String) (f : QueryFaults) (user_id : String) where
  abbrev pub seed_member : String → String → String → Action IdentityDb (Unit {0})
  seed_member auth0_sub email group_code = do
    i ← query f.user (upsert_user user_id auth0_sub email (some email))
    query f.insert (insert_member i (some group_code))

  abbrev pub seed_named : Option String → Option String → String → Action IdentityDb (Unit {0})
  seed_named (some auth0_sub) (some email) group_code =
      if auth0_sub == "" || email == "" then raise usage else seed_member auth0_sub email group_code
  seed_named _ _ group_code = raise usage

  -- `main`
  unfoldable pub seed : Option String → Option String → Option String → Action IdentityDb (Unit {0})
  seed auth0_sub email group_code =
      seed_named auth0_sub email (to_upper (get_or group_code "ADMIN"))

  -- Seeding a user with an address does what the admin's assignment does with the same user, no name
  -- and the group in capitals (ADMIN where none is given), in every state and with every failure.
  seed-upsert_user_group_membership :
      (auth0_sub email : String) (group_code : Option String) (s : IdentityDb)
      → auth0_sub ≢ ""
      → email ≢ ""
      → seed (some auth0_sub) (some email) group_code s
        ≡ upsert_user_group_membership f user_id
            (record {
              auth0_sub = some auth0_sub;
              email = some email;
              display_name = none;
              group_code = some (to_upper (get_or group_code "ADMIN"));
            })
            s
  unfolding seed upsert_user_group_membership
  seed-upsert_user_group_membership auth0_sub email group_code s a b =
      rw (==_ne auth0_sub "" a, ==_ne email "" b) refl

  -- After the seed script ran without an error, each request that comes to the gateway with a token of
  -- the user that was named goes on to the routes whose privilege the group has: the group of the
  -- third argument in capitals, or ADMIN.
  pub seed-Passes :
      (auth0_sub email : String) (group_code : Option String) (s t : IdentityDb)
      (privilege : String) (verify : String → Verified) (header : Option String) (token : String)
      → auth0_sub ≢ ""
      → email ≢ ""
      → seed (some auth0_sub) (some email) group_code s ≡ (ok tt, t)
      → Gives s (to_upper (get_or group_code "ADMIN")) privilege
      → bearer_token header ≡ some token
      → verify token ≡ accepted (some auth0_sub)
      → (auth : Auth) × (pre_handlers t verify privilege header ≡ goes_on auth)
  seed-Passes auth0_sub email group_code s t privilege verify header token a b h =
      let body : GroupMembership = record {
        auth0_sub = some auth0_sub;
        email = some email;
        display_name = none;
        group_code = some (to_upper (get_or group_code "ADMIN"));
      } in
      Stored-Passes body auth0_sub s t
        (membership-Stored f user_id body auth0_sub s t tt refl
          (sym (seed-upsert_user_group_membership auth0_sub email group_code s a b) ∙ h))
        (to_upper (get_or group_code "ADMIN")) privilege verify header token refl
