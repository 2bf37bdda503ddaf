-- ===== src/Identity/Authorizations.antt =====
-- `getUserAuthorizations` of packages/auth/src/index.ts.
use node_with_aoth.Prelude.{String, Bool, List, [], ◌∷◌, ◌++◌, map, ◌==◌, if◌then◌else◌}
use node_with_aoth.Identity.Tables.{User, Coded, IdentityDb}

-- JOIN: the rows of `xs` that the test takes, each with what follows for it.
abbrev pub join : {A B : Type 0} → (A → Bool) → List A → (A → List B) → List B
join on [] rest = []
join on (x ∷ xs) rest = if on x then rest x ++ join on xs rest else join on xs rest

-- The rows (group code, privilege code) of the query.
unfoldable pub authorization_rows : IdentityDb → String → List (String × String)
authorization_rows db sub =
    join (λ (u : User). u.auth0_sub == sub) db.users
      λ u.
        join (λ (l : String × String). l.0 == u.id) db.user_group
          λ ug.
            join (λ (g : Coded). g.id == ug.1) db.groups
              λ g.
                join (λ (l : String × String). l.0 == g.id) db.group_privileges
                  λ gp. join (λ (p : Coded). p.id == gp.1) db.privileges λ p. (g.code, p.code) ∷ []

abbrev pub remove : String → List String → List String
remove s [] = []
remove s (t ∷ ts) = let rest = remove s ts in if t == s then rest else t ∷ rest

-- [...new Set(xs)]: each element where it first occurs.
abbrev pub distinct : List String → List String
distinct [] = []
distinct (s ∷ ss) = s ∷ remove s (distinct ss)

pub record Authorizations : Type 0 where
  pub groups : List String
  pub privileges : List String

unfoldable pub get_user_authorizations : IdentityDb → String → Authorizations
unfolding authorization_rows
get_user_authorizations db sub =
    let rows = authorization_rows db sub in
    record {
      groups = distinct (map (λ (r : String × String). r.0) rows);
      privileges = distinct (map (λ (r : String × String). r.1) rows);
    }
