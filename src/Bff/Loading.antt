-- ===== src/Bff/Loading.antt =====
-- What `loadSession` and `ensureFreshSession` find.
use mathlib.Core.List.Memᴰ.{head, tail, eq_of_singleton}
use node_with_aoth.Prelude.{
  ℕ, ◌≡◌, ◌==◌, ◌-◌, refl, sym, ap, ◌∙◌, subst, String, true, Option, none, some, List, [], ◌∷◌,
  Memᴰ, arith, ltb, Bool-cases, inl, inr, ==_iff, if◌then◌else◌,
}
use node_with_aoth.Database.Action.{Error, Result, ok, err, pure, follow}
use node_with_aoth.Database.Preserves.{>>=-eq-ok, lift-eq-ok}
use node_with_aoth.Identity.Tokens.{TokenSet, refresh_auth0_tokens}
use node_with_aoth.Identity.Tables.{User, Session, IdentityDb}
use node_with_aoth.Identity.Authorizations.{join}
use node_with_aoth.Identity.Rows.{join_out}
use node_with_aoth.Identity.Secrets.{decrypt_secret}
use node_with_aoth.Bff.Repository.{
  AppSession, Draws, QueryFaults, is_open, first_row, session_row, session_rows, has_session,
  decrypted, load_session, update_session_tokens,
}
use node_with_aoth.Bff.Http.{Platform}
use node_with_aoth.Bff.Sessions.{
  next_refresh_token, token_update, store_tokens, use_tokens, use_token, refresh_session,
  ensure_loaded, ensure_fresh_session, refresh_window_ms,
}
use node_with_aoth.Bff.Revoked.{has_open}

first_row-Mem : {A : Type 0} (x : A) (xs : List A) → first_row xs ≡ some x → Memᴰ x xs
first_row-Mem x [] e = absurd (cc)
first_row-Mem x (y ∷ xs) e = head (cc)

has_open-Mem :
    (i : String) (s : Session) (ss : List Session)
    → Memᴰ s ss
    → is_open i s ≡ true
    → has_open i ss ≡ true
has_open-Mem i s [] m h = elim m [ ]
has_open-Mem i s (t ∷ ss) (head e) h = rw (← e, h) refl
has_open-Mem i s (t ∷ ss) (tail m) h = ground (arith, has_open-Mem i s ss m h)

pub has_open-has_session :
    (i : String) (ss : List Session) → has_open i ss ≡ true → has_session i ss ≡ true
has_open-has_session i [] h = absurd (cc)
has_open-has_session i (s ∷ ss) h = ground (arith, has_open-has_session i ss)

module _ (p : Platform) (i : String) where
  -- The session is that of an open row and its user, with the token deciphered.
  pub record Loaded (db : IdentityDb) (x : AppSession) : Type 0 where
    pub row : Session
    pub user : User
    pub is_row : Memᴰ row db.sessions
    pub opened : is_open i row ≡ true
    pub token : decrypt_secret p.crypto p.env.encryption_key row.access_token ≡ ok x.access_token
    pub same : x ≡ record (session_row row user) { access_token = x.access_token }

  pub id-Loaded : {db : IdentityDb} {x : AppSession} → Loaded db x → x.id ≡ i
  id-Loaded {x = x} l =
      ap (λ (y : AppSession). y.id) l.same ∙ (let e = l.opened in ground (arith, ==_iff l.row.id i))

  pub has_open-Loaded :
      {db : IdentityDb} {x : AppSession} → Loaded db x → has_open i db.sessions ≡ true
  has_open-Loaded {db} l = has_open-Mem i l.row db.sessions l.is_row l.opened

  row-Loaded :
      (db : IdentityDb) (y : AppSession) (x : AppSession)
      → first_row (session_rows i db) ≡ some y
      → decrypt_secret p.crypto p.env.encryption_key y.access_token ≡ ok x.access_token
      → x ≡ record y { access_token = x.access_token }
      → Loaded db x
  row-Loaded db y x e d same =
      let (s, is_row, opened, m) =
        join_out (is_open i)
          (λ s. join (λ (u : User). u.id == s.user_id) db.users λ u. session_row s u ∷ []) y
          db.sessions (first_row-Mem y (session_rows i db) e) in
      let (u, is_user, joined, n) =
        join_out (λ (u : User). u.id == s.user_id) (λ u. session_row s u ∷ []) y db.users m in
      let row_is : y ≡ session_row s u = eq_of_singleton n in
      record {
        row = s;
        user = u;
        is_row = is_row;
        opened = opened;
        token =
            subst
              (λ (z : AppSession).
                decrypt_secret p.crypto p.env.encryption_key z.access_token ≡ ok x.access_token)
              row_is d;
        same =
            subst (λ (z : AppSession). x ≡ record z { access_token = x.access_token }) row_is same;
      }

  pub load_session-Loaded :
      (f : Option Error) (db t : IdentityDb) (x : AppSession)
      → load_session p.crypto p.env.encryption_key f i db ≡ (ok (some x), t)
      → (t ≡ db) × Loaded db x
  unfolding load_session
  load_session-Loaded (some e) db t x h = absurd (cc)
  load_session-Loaded none db t x h = with_row (first_row (session_rows i db)) refl h
    where
      with_token :
          (y : AppSession) (r : Result String)
          → first_row (session_rows i db) ≡ some y
          → decrypt_secret p.crypto p.env.encryption_key y.access_token ≡ r
          → follow (λ token. pure (some (record y { access_token = token }))) (r, db)
            ≡ (ok (some x), t)
          → (t ≡ db) × Loaded db x
      with_token y (err e) at_ d k = absurd (cc)
      with_token y (ok token) at_ d k =
          let same : record y { access_token = token } ≡ x = cc in
          (
            cc,
            row-Loaded db y x at_ (d ∙ ap (λ (z : AppSession). ok z.access_token) same) (
                sym same
                ∙ ap (λ (z : AppSession). record y { access_token = z.access_token }) same),
          )

      with_row :
          (o : Option AppSession)
          → first_row (session_rows i db) ≡ o
          → decrypted p.crypto p.env.encryption_key o db ≡ (ok (some x), t)
          → (t ≡ db) × Loaded db x
      with_row none at_ k = absurd (cc)
      with_row (some y) at_ k =
          with_token y (decrypt_secret p.crypto p.env.encryption_key y.access_token) at_ refl k

  -- The steps of a refresh that returned a session.
  pub record Refreshed (f : QueryFaults) (ids : Draws) (now : ℕ) (u t : IdentityDb)
      (session x : AppSession) : Type 0 where
    pub token : String
    pub tokens : TokenSet
    pub kept : String
    pub stored : IdentityDb
    pub decrypts :
        decrypt_secret p.crypto p.env.encryption_key session.refresh_token_ciphertext ≡ ok token
    pub answered : refresh_auth0_tokens p.env.auth0 p.auth0 token ≡ ok tokens
    pub keeps : next_refresh_token p session tokens.refresh_token ≡ ok kept
    pub update :
        update_session_tokens p.crypto p.env.encryption_key f.update ids
          (token_update p session now tokens kept)
          u
        ≡ (ok tt, stored)
    pub reload : load_session p.crypto p.env.encryption_key f.reload i stored ≡ (ok (some x), t)

  pub refresh_session-Refreshed :
      (f : QueryFaults) (ids : Draws) (now : ℕ) (u t : IdentityDb) (session x : AppSession)
      → refresh_session p f ids now i session u ≡ (ok (some x), t)
      → Refreshed f ids now u t session x
  unfolding refresh_session
  refresh_session-Refreshed f ids now u t session x h =
      let (token, e1, h1) =
        lift-eq-ok (decrypt_secret p.crypto p.env.encryption_key session.refresh_token_ciphertext)
          (use_token p f ids now i session) u h in
      let (tokens, e2, h2) =
        lift-eq-ok (refresh_auth0_tokens p.env.auth0 p.auth0 token)
          (use_tokens p f ids now i session) u h1 in
      let (kept, e3, h3) =
        lift-eq-ok (next_refresh_token p session tokens.refresh_token)
          (store_tokens p f ids now i session tokens) u h2 in
      let (done, stored, e4, h4) =
        >>=-eq-ok
          (update_session_tokens p.crypto p.env.encryption_key f.update ids
            (token_update p session now tokens kept))
          (λ _. load_session p.crypto p.env.encryption_key f.reload i) u h3 in
      record {
        token = token;
        tokens = tokens;
        kept = kept;
        stored = stored;
        decrypts = e1;
        answered = e2;
        keeps = e3;
        update = e4;
        reload = h4;
      }

  -- What `ensureFreshSession` returns is there when it returns.
  pub ensure_fresh_session-Loaded :
      (f : QueryFaults) (ids : Draws) (now : ℕ) (db t : IdentityDb) (x : AppSession)
      → ensure_fresh_session p f ids now i db ≡ (ok (some x), t)
      → Loaded t x
  unfolding ensure_fresh_session refresh_session
  ensure_fresh_session-Loaded f ids now db t x h =
      let (o, u, first_load, rest) =
        >>=-eq-ok (load_session p.crypto p.env.encryption_key f.load i)
          (ensure_loaded p f ids now i) db h in
      after o u first_load rest
    where
      reloaded :
          (session : AppSession) (u : IdentityDb)
          → refresh_session p f ids now i session u ≡ (ok (some x), t)
          → Loaded t x
      reloaded session u k =
          let r = refresh_session-Refreshed f ids now u t session x k in
          let (same, l) = load_session-Loaded f.reload r.stored t x r.reload in
          subst (λ s. Loaded s x) (sym same) l

      after :
          (o : Option AppSession) (u : IdentityDb)
          → load_session p.crypto p.env.encryption_key f.load i db ≡ (ok o, u)
          → ensure_loaded p f ids now i o u ≡ (ok (some x), t)
          → Loaded t x
      after none u e k = absurd (cc)
      after (some session) u e k =
          elim (Bool-cases (ltb (refresh_window_ms p) (session.access_token_expires_at - now))) [
            | inl valid ↦
                let back : (session ≡ x) × (u ≡ t) = (ground arith, ground arith) in
                let (same, l) = load_session-Loaded f.load db u session e in
                subst (λ s. Loaded s x) (sym same ∙ back.1) (subst (λ y. Loaded db y) back.0 l)
            | inr stale ↦ reloaded session u (
                subst
                  (λ b.
                    (if b then pure (some session) else refresh_session p f ids now i session) u
                    ≡ (ok (some x), t))
                  stale k)
          ]
