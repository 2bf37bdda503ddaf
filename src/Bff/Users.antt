-- ===== src/Bff/Users.antt =====
-- The primary key of the users stays one.
use node_with_aoth.Prelude.{
  ◌≡◌, ◌==◌, refl, ◌∙◌, String, Bool, true, false, Option, none, some, List, [], ◌∷◌, ◌++◌, map,
  arith, Bool-cases, inl, inr, ==_iff, ==_refl, if◌then◌else◌,
}
use node_with_aoth.Database.Action.{unique_violation, Result, ok, err}
use node_with_aoth.Identity.Tables.{User, IdentityDb}
use node_with_aoth.Bff.Repository.{
  set_profile, find_sub, email_taken, has_user, upsert_user, update_user, insert_user,
}

-- The primary key of the users.
abbrev pub UniqueIds : List User → Type 0
UniqueIds [] = Unit
UniqueIds (u ∷ us) = (has_user u.id us ≡ false) × UniqueIds us

has_user-set_profile :
    (i sub email : String) (name : Option String) (us : List User)
    → has_user i (map (set_profile sub email name) us) ≡ has_user i us
has_user-set_profile i sub email name [] = refl
has_user-set_profile i sub email name (u ∷ us) =
    ground (arith, has_user-set_profile i sub email name us)

set_profile-UniqueIds :
    (sub email : String) (name : Option String) (us : List User)
    → UniqueIds us
    → UniqueIds (map (set_profile sub email name) us)
set_profile-UniqueIds sub email name [] h = tt
set_profile-UniqueIds sub email name (u ∷ us) h = (
  let same : (set_profile sub email name u).id ≡ u.id = ground arith in
      rw same (has_user-set_profile u.id sub email name us ∙ h.0),
  set_profile-UniqueIds sub email name us h.1,
)

has_user-append :
    (i : String) (us : List User) (v : User)
    → has_user i us ≡ false
    → (v.id == i) ≡ false
    → has_user i (us ++ v ∷ []) ≡ false
has_user-append i [] v h e = rw e refl
has_user-append i (u ∷ us) v h e = ground (arith, has_user-append i us v)

append-UniqueIds :
    (us : List User) (v : User) → has_user v.id us ≡ false → UniqueIds us → UniqueIds (us ++ v ∷ [])
append-UniqueIds [] v h k = (refl, tt)
append-UniqueIds (u ∷ us) v h k = (
  has_user-append u.id us v k.0 (ground (arith, ==_iff v.id u.id, ==_iff u.id v.id, ==_refl v.id)),
  append-UniqueIds us v (ground arith) k.1,
)

pub upsert_user-UniqueIds :
    (i sub email : String) (name : Option String) (s : IdentityDb)
    → UniqueIds s.users
    → UniqueIds (upsert_user i sub email name s).1.users
unfolding upsert_user
upsert_user-UniqueIds i sub email name s h = by_user (find_sub sub s.users)
  where
    by_taken :
        (u : User) (b : Bool)
        → UniqueIds
            (let x : Result String × IdentityDb =
                if b
                then (err unique_violation, s)
                else (ok u.id, record s { users = map (set_profile sub email name) s.users }) in
              x).1.users
    by_taken u true = h
    by_taken u false = set_profile-UniqueIds sub email name s.users h

    by_email :
        has_user i s.users ≡ false
        → (b : Bool)
        → UniqueIds
            (let x : Result String × IdentityDb = if b then (err unique_violation, s) else (
              ok i,
              record s {
                users =
                    s.users
                    ++ record { id = i; auth0_sub = sub; email = email; display_name = name } ∷ [];
              },
            ) in
              x).1.users
    by_email e true = h
    by_email e false = append-UniqueIds s.users _ e h

    by_user :
        (o : Option User)
        → UniqueIds
            (let x : Result String × IdentityDb = elim o [
              | some u ↦ update_user sub email name u s
              | none ↦ insert_user i sub email name s
            ] in
              x).1.users
    by_user (some u) = by_taken u (email_taken sub email s.users)
    by_user none = elim (Bool-cases (has_user i s.users)) [
      | inl e ↦ rw e h
      | inr e ↦ rw e (by_email e (email_taken sub email s.users))
    ]
