-- ===== src/Bff/Repository/Users.antt =====
-- The statements of session.repository.ts on `identity.users` and `identity.user_group`.
use node_with_aoth.Prelude.{
  String, Bool, false, ◌&&◌, ◌||◌, not, Option, none, some, List, [], ◌∷◌, ◌++◌, map, ◌==◌,
  if◌then◌else◌,
}
use node_with_aoth.Shared.{is_text}
use node_with_aoth.Database.Action.{unique_violation, ok, err, Action, modify}
use node_with_aoth.Identity.Tables.{User, Coded, IdentityDb}

-- INSERT INTO identity.users … ON CONFLICT (auth0_sub) DO UPDATE … RETURNING id
abbrev pub find_sub : String → List User → Option User
find_sub sub [] = none
find_sub sub (u ∷ us) = if u.auth0_sub == sub then some u else find_sub sub us

abbrev pub set_profile : String → String → Option String → User → User
set_profile sub email name u =
    if u.auth0_sub == sub then record u { email = email; display_name = name } else u

-- The unique columns `email` and `id` of the other rows.
abbrev pub email_taken : String → String → List User → Bool
email_taken sub email [] = false
email_taken sub email (u ∷ us) =
    (not (u.auth0_sub == sub) && u.email == email) || email_taken sub email us

abbrev pub has_user : String → List User → Bool
has_user i [] = false
has_user i (u ∷ us) = u.id == i || has_user i us

abbrev pub update_user : String → String → Option String → User → Action IdentityDb String
update_user sub email name u db =
    if email_taken sub email db.users
    then (err unique_violation, db)
    else (ok u.id, record db { users = map (set_profile sub email name) db.users })

abbrev pub insert_user : String → String → String → Option String → Action IdentityDb String
insert_user i sub email name db =
    if has_user i db.users || email_taken sub email db.users then (err unique_violation, db) else (
      ok i,
      record db {
        users =
            db.users ++ record { id = i; auth0_sub = sub; email = email; display_name = name } ∷ [];
      },
    )

unfoldable pub upsert_user : String → String → String → Option String → Action IdentityDb String
upsert_user i sub email name db = elim (find_sub sub db.users) [
  | some u ↦ update_user sub email name u db
  | none ↦ insert_user i sub email name db
]

-- INSERT INTO identity.user_group … SELECT … ON CONFLICT DO NOTHING
abbrev pub has_link : String → String → List (String × String) → Bool
has_link u g [] = false
has_link u g (l ∷ ls) = (l.0 == u && l.1 == g) || has_link u g ls

abbrev pub add_link : String → String → List (String × String) → List (String × String)
add_link u g ls = if has_link u g ls then ls else ls ++ (u, g) ∷ []

abbrev pub add_links :
    String → Option String → List Coded → List (String × String) → List (String × String)
add_links u code [] ls = ls
add_links u code (g ∷ gs) ls =
    add_links u code gs (if is_text code g.code then add_link u g.id ls else ls)

unfoldable pub insert_member : String → Option String → Action IdentityDb (Unit {0})
insert_member u code =
    modify λ db. record db { user_group = add_links u code db.groups db.user_group }
