-- ===== src/Bff/Creation.antt =====
-- A session that was created is the one that is loaded.
use mathlib.Core.List.Memᴰ.{head, tail}
use node_with_aoth.Prelude.{
  ℕ, ◌≡◌, ◌==◌, refl, sym, ◌∙◌, subst, String, Bool, true, false, none, some, List, [], ◌∷◌, ◌++◌,
  Memᴰ, arith, Bool-cases, inl, inr, ==_iff, ==_refl, if◌then◌else◌, append_assoc, ◌+◌,
}
use node_with_aoth.Database.Action.{Result, ok, pure, ◌>>◌}
use node_with_aoth.Database.Preserves.{>>=-eq-ok}
use node_with_aoth.Identity.Tables.{User, Session, IdentityDb}
use node_with_aoth.Identity.Authorizations.{join}
use node_with_aoth.Identity.Hex.{IsBytes}
use node_with_aoth.Identity.Secrets.{
  Crypto, IsCipher, encrypt_secret, decrypt_secret, decrypt_secret-encrypt_secret,
}
use node_with_aoth.Bff.Repository.{
  query, AppSession, Draws, QueryFaults, UserSession, is_open, first_row, session_row, session_rows,
  has_user, upsert_user, has_session, insert_session, new_session, load_session,
  create_user_session,
}
use node_with_aoth.Bff.Members.{Upserted, upsert_user-Upserted}
use node_with_aoth.Bff.Membership.{query-eq-ok}
use node_with_aoth.Bff.Users.{UniqueIds, upsert_user-UniqueIds}

join-append :
    {A B : Type 0} (on : A → Bool) (xs ys : List A) (rest : A → List B)
    → join on (xs ++ ys) rest ≡ join on xs rest ++ join on ys rest
join-append on [] ys rest = refl
join-append on (x ∷ xs) ys rest = by_test (on x) (join-append on xs ys rest)
  where
    by_test :
        (b : Bool)
        → join on (xs ++ ys) rest ≡ join on xs rest ++ join on ys rest
        → (if b then rest x ++ join on (xs ++ ys) rest else join on (xs ++ ys) rest)
          ≡ (if b then rest x ++ join on xs rest else join on xs rest) ++ join on ys rest
    by_test true e = rw e (sym (append_assoc (rest x) (join on xs rest) (join on ys rest)))
    by_test false e = e

join-fresh :
    {B : Type 0} (i : String) (ss : List Session) (rest : Session → List B)
    → has_session i ss ≡ false
    → join (is_open i) ss rest ≡ []
join-fresh i [] rest h = refl
join-fresh i (s ∷ ss) rest h = ground (arith, join-fresh i ss rest)

has_user-Mem : (u : User) (us : List User) → Memᴰ u us → has_user u.id us ≡ true
has_user-Mem u [] m = elim m [ ]
has_user-Mem u (v ∷ us) (head e) = rw (← e, ==_refl u.id) refl
has_user-Mem u (v ∷ us) (tail m) = ground (arith, has_user-Mem u us m)

-- The one user with the id.
first_row-join :
    (s : Session) (u : User) (us : List User)
    → UniqueIds us
    → Memᴰ u us
    → first_row (join (λ (v : User). v.id == u.id) us λ v. session_row s v ∷ [])
      ≡ some (session_row s u)
first_row-join s u [] k m = elim m [ ]
first_row-join s u (v ∷ us) k (head e) = rw (← e, ==_refl u.id) refl
first_row-join s u (v ∷ us) k (tail m) =
    let present = has_user-Mem u us m in
    let other : (v.id == u.id) ≡ false = ground (arith, ==_iff v.id u.id) in
    rw other (first_row-join s u us k.1 m)

first_row-append :
    {A : Type 0} (xs ys : List A) (x : A) → first_row xs ≡ some x → first_row (xs ++ ys) ≡ some x
first_row-append [] ys x e = absurd (cc)
first_row-append (y ∷ xs) ys x e = e

insert_session-eq-ok :
    (r : Session) (s t : IdentityDb) (x : Unit {0})
    → insert_session r s ≡ (ok x, t)
    → (has_session r.id s.sessions ≡ false) × (t ≡ record s { sessions = s.sessions ++ r ∷ [] })
unfolding insert_session
insert_session-eq-ok r s t x h = elim (Bool-cases (has_session r.id s.sessions)) [
  | inl old ↦ absurd (ground arith)
  | inr new ↦ (new, ground arith)
]

module _ (c : Crypto) (env_key : String) (f : QueryFaults) (ids : Draws) (now : ℕ)
    (input : UserSession) where
  -- The session as it is loaded.
  abbrev pub loaded_session : AppSession
  loaded_session = record {
    id = ids.session_id;
    access_token = input.access_token;
    access_token_expires_at = input.access_token_expires_at;
    refresh_token_ciphertext = encrypt_secret c env_key ids.refresh_iv input.refresh_token;
    refresh_token_expires_at = some (now + 2592000000);
    csrf_token = input.csrf_token;
    auth0_sub = input.auth0_sub;
    email = input.email;
    display_name = some input.display_name;
  }

  row_found :
      (s m t : IdentityDb) (j : String)
      → UniqueIds m.users
      → Upserted input.auth0_sub input.email (some input.display_name) j s m
      → has_session ids.session_id m.sessions ≡ false
      → t ≡ record m { sessions = m.sessions ++ new_session c env_key ids now input j ∷ [] }
      → first_row (session_rows ids.session_id t)
        ≡ some (record loaded_session {
          access_token = encrypt_secret c env_key ids.access_iv input.access_token;
        })
  row_found s m t j k u fresh e =
      let row = new_session c env_key ids now input j in
      let rest =
        λ (r : Session). join (λ (v : User). v.id == r.user_id) m.users λ v. session_row r v ∷ [] in
      let found : first_row (rest row) ≡ some (session_row row u.user) =
        subst
          (λ i.
            first_row (join (λ (v : User). v.id == i) m.users λ v. session_row row v ∷ [])
            ≡ some (session_row row u.user))
          u.of_id (first_row-join row u.user m.users k u.is_user) in
      rw
        (
          e,
          join-append (is_open ids.session_id) m.sessions (row ∷ []) rest,
          join-fresh ids.session_id m.sessions rest fresh,
          ==_refl ids.session_id,
        )
        (first_row-append (rest row) [] (session_row row u.user) found
          ∙ rw (u.of_sub, u.of_email, u.of_name) refl)

  -- With a cipher that keeps its promise, IVs of bytes and one user to an id: a session whose
  -- creation returned is loaded with the subject, address and name, the access token and its expiry,
  -- and the CSRF token that were given, and its refresh token is decrypted to the one that was given.
  pub load_session-create_user_session :
      (s t : IdentityDb) (i : String)
      → IsCipher c
      → IsBytes ids.access_iv
      → IsBytes ids.refresh_iv
      → UniqueIds s.users
      → create_user_session c env_key f ids now input s ≡ (ok i, t)
      → (load_session c env_key none i t ≡ (ok (some loaded_session), t))
        × (decrypt_secret c env_key loaded_session.refresh_token_ciphertext
            ≡ ok input.refresh_token)
  unfolding load_session create_user_session
  load_session-create_user_session s t i k a b unique h =
      let (j, m, e1, h1) =
        >>=-eq-ok
          (query f.user
            (upsert_user ids.user_id input.auth0_sub input.email (some input.display_name)))
          (λ j.
            query f.insert (insert_session (new_session c env_key ids now input j))
            >> pure ids.session_id)
          s h in
      let (x, t', e2, h2) =
        >>=-eq-ok (query f.insert (insert_session (new_session c env_key ids now input j)))
          (λ _. pure ids.session_id) m h1 in
      let upsert = query-eq-ok f.user _ s e1 in
      let u =
        upsert_user-Upserted ids.user_id input.auth0_sub input.email (some input.display_name) s m j
          upsert in
      let keyed : UniqueIds m.users =
        subst (λ (y : Result String × IdentityDb). UniqueIds y.1.users) upsert
          (upsert_user-UniqueIds ids.user_id input.auth0_sub input.email (some input.display_name) s
            unique) in
      let (fresh, stored) =
        insert_session-eq-ok (new_session c env_key ids now input j) m t' x
          (query-eq-ok f.insert _ m e2) in
      let same_id : ids.session_id ≡ i = cc in
      let same : t' ≡ t = cc in
      (
        subst (λ y. load_session c env_key none y t ≡ (ok (some loaded_session), t)) same_id
            (rw
              (
                row_found s m t j keyed u fresh (sym same ∙ stored),
                decrypt_secret-encrypt_secret c env_key k ids.access_iv a input.access_token,
              )
              refl),
        decrypt_secret-encrypt_secret c env_key k ids.refresh_iv b input.refresh_token,
      )
