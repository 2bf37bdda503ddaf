-- ===== src/Bff/Subjects.antt =====
-- One user of each subject, through all requests.
use node_with_aoth.Prelude.{
  ◌≡◌, ◌==◌, refl, String, Bool, true, false, ◌||◌, Option, none, some, List, [], ◌∷◌, ◌++◌, map,
  arith, ==_iff, ==_refl, if◌then◌else◌,
}
use node_with_aoth.Database.Action.{unique_violation, Result, ok, err}
use node_with_aoth.Identity.Tables.{User, Session, IdentityDb}
use node_with_aoth.Bff.Repository.{
  find_sub, set_profile, email_taken, has_user, update_user, insert_user, upsert_user,
  insert_session, insert_member,
}
use node_with_aoth.Bff.Http.{Platform}
use node_with_aoth.Bff.Routes.{Reach}
use node_with_aoth.Bff.Kept.{Kept, Reach-Kept}
use node_with_aoth.Bff.Users.{UniqueIds, upsert_user-UniqueIds}

abbrev pub UniqueSubs : List User → Type 0
UniqueSubs [] = Unit
UniqueSubs (u ∷ us) = (find_sub u.auth0_sub us ≡ none) × UniqueSubs us

find_sub-set_profile :
    (x sub email : String) (name : Option String) (us : List User)
    → find_sub x us ≡ none
    → find_sub x (map (set_profile sub email name) us) ≡ none
find_sub-set_profile x sub email name [] h = refl
find_sub-set_profile x sub email name (u ∷ us) h =
    let same : (set_profile sub email name u).auth0_sub ≡ u.auth0_sub = ground arith in
    rw same (ground (arith, find_sub-set_profile x sub email name us))

set_profile-UniqueSubs :
    (sub email : String) (name : Option String) (us : List User)
    → UniqueSubs us
    → UniqueSubs (map (set_profile sub email name) us)
set_profile-UniqueSubs sub email name [] h = tt
set_profile-UniqueSubs sub email name (u ∷ us) h = (
  let same : (set_profile sub email name u).auth0_sub ≡ u.auth0_sub = ground arith in
      rw same (find_sub-set_profile u.auth0_sub sub email name us h.0),
  set_profile-UniqueSubs sub email name us h.1,
)

find_sub-append :
    (x : String) (us : List User) (v : User)
    → find_sub x us ≡ none
    → (v.auth0_sub == x) ≡ false
    → find_sub x (us ++ v ∷ []) ≡ none
find_sub-append x [] v h e = rw e refl
find_sub-append x (u ∷ us) v h e = ground (arith, find_sub-append x us v)

append-UniqueSubs :
    (us : List User) (v : User)
    → find_sub v.auth0_sub us ≡ none
    → UniqueSubs us
    → UniqueSubs (us ++ v ∷ [])
append-UniqueSubs [] v h k = (refl, tt)
append-UniqueSubs (u ∷ us) v h k = (
  find_sub-append u.auth0_sub us v k.0 (
      ground (
        arith,
        ==_iff v.auth0_sub u.auth0_sub,
        ==_iff u.auth0_sub v.auth0_sub,
        ==_refl v.auth0_sub,
      )),
  append-UniqueSubs us v (ground arith) k.1,
)

upsert_user-UniqueSubs :
    (i sub email : String) (name : Option String) (s : IdentityDb)
    → UniqueSubs s.users
    → UniqueSubs (upsert_user i sub email name s).1.users
unfolding upsert_user
upsert_user-UniqueSubs i sub email name s h = by_user (find_sub sub s.users) refl
  where
    by_taken :
        (u : User) (b : Bool)
        → UniqueSubs
            (let x : Result String × IdentityDb =
                if b
                then (err unique_violation, s)
                else (ok u.id, record s { users = map (set_profile sub email name) s.users }) in
              x).1.users
    by_taken u true = h
    by_taken u false = set_profile-UniqueSubs sub email name s.users h

    by_conflict :
        find_sub sub s.users ≡ none
        → (b : Bool)
        → UniqueSubs
            (let x : Result String × IdentityDb = if b then (err unique_violation, s) else (
              ok i,
              record s {
                users =
                    s.users
                    ++ record { id = i; auth0_sub = sub; email = email; display_name = name } ∷ [];
              },
            ) in
              x).1.users
    by_conflict e true = h
    by_conflict e false = append-UniqueSubs s.users _ e h

    by_user :
        (o : Option User)
        → find_sub sub s.users ≡ o
        → UniqueSubs
            (let x : Result String × IdentityDb = elim o [
              | some u ↦ update_user sub email name u s
              | none ↦ insert_user i sub email name s
            ] in
              x).1.users
    by_user (some u) e = by_taken u (email_taken sub email s.users)
    by_user none e = by_conflict e (has_user i s.users || email_taken sub email s.users)

-- One user of each id and of each subject.
pub record UniqueUsers (s : IdentityDb) : Type 0 where
  pub ids : UniqueIds s.users
  pub subs : UniqueSubs s.users

insert_session-users : (r : Session) (s : IdentityDb) → (insert_session r s).1.users ≡ s.users
unfolding insert_session
insert_session-users r s = ground arith

UniqueUsers-Kept : Kept UniqueUsers
unfolding insert_member
UniqueUsers-Kept = record {
  users = λ i sub email name. record {
    at = λ s u. record {
      ids = upsert_user-UniqueIds i sub email name s u.ids;
      subs = upsert_user-UniqueSubs i sub email name s u.subs;
    };
  };
  members = λ u code. record { at = λ s k. record { ids = k.ids; subs = k.subs } };
  opened = λ r. record {
    at = λ s k.
        let same = insert_session-users r s in
        record { ids = rw same k.ids; subs = rw same k.subs };
  };
  updated = λ c key ids t s k. record { ids = k.ids; subs = k.subs };
  revoked = λ i now s k. record { ids = k.ids; subs = k.subs };
}

-- No sequence of logins, renewals, logouts and assignments, whatever fails in it, makes two users of
-- one id or of one subject.
pub Reach-UniqueUsers :
    (p : Platform) {s t : IdentityDb} → Reach p s t → UniqueUsers s → UniqueUsers t
Reach-UniqueUsers p r u = Reach-Kept UniqueUsers-Kept p r u
