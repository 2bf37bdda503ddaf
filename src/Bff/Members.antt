-- ===== src/Bff/Members.antt =====
-- What the statements of a group membership write.
use mathlib.Core.List.Memᴰ.{head, tail, append_left, append_right}
use node_with_aoth.Prelude.{
  ◌≡◌, ◌==◌, refl, sym, ap, ◌∙◌, subst, inl, inr, String, Bool, true, false, ◌&&◌, ◌||◌, Option,
  none, some, List, [], ◌∷◌, ◌++◌, map, Memᴰ, arith, Bool-cases, ==_iff, if◌then◌else◌,
}
use node_with_aoth.Shared.{is_text}
use node_with_aoth.Database.Action.{unique_violation, Result, ok, err}
use node_with_aoth.Identity.Tables.{User, Coded, IdentityDb}
use node_with_aoth.Bff.Repository.{
  find_sub, set_profile, email_taken, has_user, update_user, insert_user, upsert_user, has_link,
  add_link, add_links,
}

pub Mem-map-in :
    {A B : Type 0} (g : A → B) (x : A) (xs : List A) → Memᴰ x xs → Memᴰ (g x) (map g xs)
Mem-map-in g x [] m = elim m [ ]
Mem-map-in g x (y ∷ xs) (head e) = head (ap g e)
Mem-map-in g x (y ∷ xs) (tail m) = tail (Mem-map-in g x xs m)

find_sub-Mem :
    (sub : String) (us : List User) (u : User)
    → find_sub sub us ≡ some u
    → Memᴰ u us × (u.auth0_sub ≡ sub)
find_sub-Mem sub [] u e = absurd (cc)
find_sub-Mem sub (v ∷ us) u e = by_test (v.auth0_sub == sub) refl e (find_sub-Mem sub us u)
  where
    by_test :
        (b : Bool)
        → (v.auth0_sub == sub) ≡ b
        → (if b then some v else find_sub sub us) ≡ some u
        → (find_sub sub us ≡ some u → Memᴰ u us × (u.auth0_sub ≡ sub))
        → Memᴰ u (v ∷ us) × (u.auth0_sub ≡ sub)
    by_test true t k below =
        let same : v ≡ u = cc in
        (head (sym same), ap (λ (x : User). x.auth0_sub) (sym same) ∙ (==_iff v.auth0_sub sub).0 t)
    by_test false t k below = let (m, e2) = below k in (tail m, e2)

-- The statement has put the user there, and changed no other table.
pub record Upserted (sub email : String) (name : Option String) (j : String) (s t : IdentityDb)
    : Type 0 where
  pub user : User
  pub is_user : Memᴰ user t.users
  pub of_sub : user.auth0_sub ≡ sub
  pub of_id : user.id ≡ j
  pub of_email : user.email ≡ email
  pub of_name : user.display_name ≡ name
  pub others : t ≡ record s { users = t.users }

pub upsert_user-Upserted :
    (i sub email : String) (name : Option String) (s t : IdentityDb) (j : String)
    → upsert_user i sub email name s ≡ (ok j, t)
    → Upserted sub email name j s t
unfolding upsert_user
upsert_user-Upserted i sub email name s t j h = by_user (find_sub sub s.users) refl h
  where
    updated :
        (u : User) (b : Bool)
        → find_sub sub s.users ≡ some u
        → ◌≡◌ {A = Result String × IdentityDb}
            (if b
              then (err unique_violation, s)
              else (ok u.id, record s { users = map (set_profile sub email name) s.users }))
            (ok j, t)
        → Upserted sub email name j s t
    updated u true found k = absurd (cc)
    updated u false found k =
        let (m, e) = find_sub-Mem sub s.users u found in
        let same : record s { users = map (set_profile sub email name) s.users } ≡ t = cc in
        record {
          user = set_profile sub email name u;
          is_user =
              subst (λ (x : IdentityDb). Memᴰ (set_profile sub email name u) x.users) same
                (Mem-map-in (set_profile sub email name) u s.users m);
          of_sub = ground arith;
          of_id = ground arith;
          of_email = ground (arith, ==_iff u.auth0_sub sub);
          of_name = ground (arith, ==_iff u.auth0_sub sub);
          others = sym same ∙ ap (λ (x : IdentityDb). record s { users = x.users }) same;
        }

    inserted :
        (b : Bool)
        → ◌≡◌ {A = Result String × IdentityDb}
            (if b then (err unique_violation, s) else (
              ok i,
              record s {
                users =
                    s.users
                    ++ record { id = i; auth0_sub = sub; email = email; display_name = name } ∷ [];
              },
            ))
            (ok j, t)
        → Upserted sub email name j s t
    inserted true k = absurd (cc)
    inserted false k =
        let new : User = record { id = i; auth0_sub = sub; email = email; display_name = name } in
        let same : record s { users = s.users ++ new ∷ [] } ≡ t = cc in
        record {
          user = new;
          is_user =
              subst (λ (x : IdentityDb). Memᴰ new x.users) same (append_right s.users (head refl));
          of_sub = refl;
          of_id = cc;
          of_email = refl;
          of_name = refl;
          others = sym same ∙ ap (λ (x : IdentityDb). record s { users = x.users }) same;
        }

    by_user :
        (o : Option User)
        → find_sub sub s.users ≡ o
        → ◌≡◌ {A = Result String × IdentityDb}
            (elim o [
              | some u ↦ update_user sub email name u s
              | none ↦ insert_user i sub email name s
            ])
            (ok j, t)
        → Upserted sub email name j s t
    by_user none found k = inserted (has_user i s.users || email_taken sub email s.users) k
    by_user (some u) found k = updated u (email_taken sub email s.users) found k

has_link-Mem :
    (u g : String) (ls : List (String × String)) → has_link u g ls ≡ true → Memᴰ (u, g) ls
has_link-Mem u g [] h = absurd (cc)
has_link-Mem u g (l ∷ ls) h = elim (Bool-cases (l.0 == u && l.1 == g)) [
  | inl e ↦ head (ground (arith, ==_iff l.0 u, ==_iff l.1 g))
  | inr e ↦ tail (has_link-Mem u g ls (ground arith))
]

add_link-Mem : (u g : String) (ls : List (String × String)) → Memᴰ (u, g) (add_link u g ls)
add_link-Mem u g ls = elim (Bool-cases (has_link u g ls)) [
  | inl e ↦ rw e (has_link-Mem u g ls e)
  | inr e ↦ rw e (append_right ls (head refl))
]

add_link-grows :
    (u g : String) (l : String × String) (ls : List (String × String))
    → Memᴰ l ls
    → Memᴰ l (add_link u g ls)
add_link-grows u g l ls m = elim (Bool-cases (has_link u g ls)) [
  | inl e ↦ rw e m
  | inr e ↦ rw e (append_left ((u, g) ∷ []) m)
]

add_links-grows :
    (u : String) (code : Option String) (l : String × String) (gs : List Coded)
    (ls : List (String × String))
    → Memᴰ l ls
    → Memᴰ l (add_links u code gs ls)
add_links-grows u code l [] ls m = m
add_links-grows u code l (g ∷ gs) ls m =
    add_links-grows u code l gs _ (by_test (is_text code g.code))
  where
    by_test : (b : Bool) → Memᴰ l (if b then add_link u g.id ls else ls)
    by_test true = add_link-grows u g.id l ls m
    by_test false = m

pub add_links-Mem :
    (u : String) (code : Option String) (g : Coded) (gs : List Coded) (ls : List (String × String))
    → Memᴰ g gs
    → is_text code g.code ≡ true
    → Memᴰ (u, g.id) (add_links u code gs ls)
add_links-Mem u code g [] ls m h = elim m [ ]
add_links-Mem u code g (k ∷ gs) ls (head e) h =
    rw (← e, h) (add_links-grows u code (u, g.id) gs (add_link u g.id ls) (add_link-Mem u g.id ls))
add_links-Mem u code g (k ∷ gs) ls (tail m) h = add_links-Mem u code g gs _ m h
