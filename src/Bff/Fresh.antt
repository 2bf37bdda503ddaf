-- ===== src/Bff/Fresh.antt =====
-- The session that `ensureFreshSession` hands to a controller.
use mathlib.Core.List.Memᴰ.{head, tail}
use node_with_aoth.Prelude.{
  ℕ, ◌≡◌, ◌+◌, ◌*◌, ◌-◌, ◌<◌, refl, ap, ◌∙◌, subst, ◌⊎◌, inl, inr, String, true, false, Option,
  none, some, List, [], ◌∷◌, map, Memᴰ, arith, ltb, Bool-cases, ==_iff, ==_refl, if◌then◌else◌,
}
use node_with_aoth.Shared.{get_or}
use node_with_aoth.Database.Action.{Error, ok, pure}
use node_with_aoth.Database.Preserves.{>>=-eq-ok}
use node_with_aoth.Identity.Tables.{Session, IdentityDb}
use node_with_aoth.Identity.Hex.{IsBytes}
use node_with_aoth.Identity.Secrets.{
  Crypto, IsCipher, encrypt_secret, decrypt_secret, decrypt_secret-encrypt_secret,
}
use node_with_aoth.Identity.Tokens.{TokenSet, refresh_auth0_tokens}
use node_with_aoth.Bff.Repository.{
  AppSession, Draws, QueryFaults, TokenUpdate, is_open, update_row, update_session_tokens,
  load_session,
}
use node_with_aoth.Bff.Http.{Platform}
use node_with_aoth.Bff.Sessions.{
  next_refresh_token, token_update, refresh_session, ensure_loaded, ensure_fresh_session,
  refresh_window_ms,
}
use node_with_aoth.Bff.Loading.{
  id-Loaded, load_session-Loaded, Refreshed, refresh_session-Refreshed,
}

Mem-map :
    {A B : Type 0} (g : A → B) (y : B) (xs : List A)
    → Memᴰ y (map g xs)
    → (x : A) × Memᴰ x xs × (y ≡ g x)
Mem-map g y [] m = absurd (elim m [ ])
Mem-map g y (x ∷ xs) (head e) = (x, head refl, e)
Mem-map g y (x ∷ xs) (tail m) = let (z, k, e) = Mem-map g y xs m in (z, tail k, e)

stored_sessions :
    (c : Crypto) (key : String) (f : Option Error) (ids : Draws) (w : TokenUpdate)
    (s t : IdentityDb)
    → update_session_tokens c key f ids w s ≡ (ok tt, t)
    → t ≡ record s { sessions = map (update_row c key ids w) s.sessions }
unfolding update_session_tokens
stored_sessions c key none ids w s t h = cc
stored_sessions c key (some e) ids w s t h = absurd (cc)

module _ (p : Platform) (i : String) (f : QueryFaults) (ids : Draws) (now : ℕ) where
  -- What a refresh of the session `i` leaves in it.
  pub record Renews (old x : AppSession) (token : String) (tokens : TokenSet) : Type 0 where
    pub kept : String
    pub keeps : next_refresh_token p old tokens.refresh_token ≡ ok kept
    pub expires : x.access_token_expires_at ≡ now + tokens.expires_in * 1000
    pub access :
        decrypt_secret p.crypto p.env.encryption_key
          (encrypt_secret p.crypto p.env.encryption_key ids.access_iv tokens.access_token)
        ≡ ok x.access_token
    pub refresh :
        x.refresh_token_ciphertext
        ≡ encrypt_secret p.crypto p.env.encryption_key ids.refresh_iv kept

  updated_row :
      (w : TokenUpdate) (r : Session)
      → w.session_id ≡ i
      → is_open i (update_row p.crypto p.env.encryption_key ids w r) ≡ true
      → update_row p.crypto p.env.encryption_key ids w r ≡ record r {
        access_token = encrypt_secret p.crypto p.env.encryption_key ids.access_iv w.access_token;
        access_token_expires_at = w.access_token_expires_at;
        refresh_token_ciphertext =
            encrypt_secret p.crypto p.env.encryption_key ids.refresh_iv w.refresh_token;
      }
  updated_row w r e h = ground (arith, ==_iff r.id i, ==_iff r.id w.session_id, ==_refl i)

  Refreshed-Renews :
      (u t : IdentityDb) (old x : AppSession)
      → old.id ≡ i
      → (r : Refreshed p i f ids now u t old x) → Renews old x r.token r.tokens
  Refreshed-Renews u t old x e r =
      let w = token_update p old now r.tokens r.kept in
      let key = p.env.encryption_key in
      let stored = stored_sessions p.crypto key f.update ids w u r.stored r.update in
      let l = (load_session-Loaded p i f.reload r.stored t x r.reload).1 in
      let (row, m, same) =
        Mem-map (update_row p.crypto key ids w) l.row u.sessions
          (subst (λ (s : IdentityDb). Memᴰ l.row s.sessions) stored l.is_row) in
      let now_ = same ∙ updated_row w row e (subst (λ s. is_open i s ≡ true) same l.opened) in
      record {
        kept = r.kept;
        keeps = r.keeps;
        expires =
            ap (λ (y : AppSession). y.access_token_expires_at) l.same
            ∙ ap (λ (s : Session). s.access_token_expires_at) now_;
        access =
            subst (λ (s : Session). decrypt_secret p.crypto key s.access_token ≡ ok x.access_token)
              now_ l.token;
        refresh =
            ap (λ (y : AppSession). y.refresh_token_ciphertext) l.same
            ∙ ap (λ (s : Session). s.refresh_token_ciphertext) now_;
      }

  -- The two ways to a session.
  pub record StillGood (s t : IdentityDb) (x : AppSession) : Type 0 where
    pub found : load_session p.crypto p.env.encryption_key f.load i s ≡ (ok (some x), t)
    pub valid : ltb (refresh_window_ms p) (x.access_token_expires_at - now) ≡ true

  pub record Renewed (s : IdentityDb) (x : AppSession) : Type 0 where
    pub old : AppSession
    pub token : String
    pub tokens : TokenSet
    pub found : load_session p.crypto p.env.encryption_key f.load i s ≡ (ok (some old), s)
    pub stale : ltb (refresh_window_ms p) (old.access_token_expires_at - now) ≡ false
    pub decrypts :
        decrypt_secret p.crypto p.env.encryption_key old.refresh_token_ciphertext ≡ ok token
    pub answered : refresh_auth0_tokens p.env.auth0 p.auth0 token ≡ ok tokens
    pub renews : Renews old x token tokens

  fresh_cases :
      (s t : IdentityDb) (x : AppSession)
      → ensure_fresh_session p f ids now i s ≡ (ok (some x), t)
      → StillGood s t x ⊎ Renewed s x
  unfolding ensure_fresh_session
  fresh_cases s t x h =
      let (o, u, found, rest) =
        >>=-eq-ok (load_session p.crypto p.env.encryption_key f.load i)
          (ensure_loaded p f ids now i) s h in
      after o u found rest
    where
      renewed :
          (old : AppSession) (u : IdentityDb)
          → load_session p.crypto p.env.encryption_key f.load i s ≡ (ok (some old), u)
          → ltb (refresh_window_ms p) (old.access_token_expires_at - now) ≡ false
          → refresh_session p f ids now i old u ≡ (ok (some x), t)
          → Renewed s x
      renewed old u found stale k =
          let (same, l) = load_session-Loaded p i f.load s u old found in
          let r = refresh_session-Refreshed p i f ids now u t old x k in
          record {
            old = old;
            token = r.token;
            tokens = r.tokens;
            found =
                subst
                  (λ v. load_session p.crypto p.env.encryption_key f.load i s ≡ (ok (some old), v))
                  same found;
            stale = stale;
            decrypts = r.decrypts;
            answered = r.answered;
            renews = Refreshed-Renews u t old x (id-Loaded p i l) r;
          }

      after :
          (o : Option AppSession) (u : IdentityDb)
          → load_session p.crypto p.env.encryption_key f.load i s ≡ (ok o, u)
          → ensure_loaded p f ids now i o u ≡ (ok (some x), t)
          → StillGood s t x ⊎ Renewed s x
      after none u found k = absurd (cc)
      after (some old) u found k =
          elim (Bool-cases (ltb (refresh_window_ms p) (old.access_token_expires_at - now))) [
            | inl valid ↦
                let same : old ≡ x = ground arith in
                let back : u ≡ t = ground arith in
                inl (record { found = rw (← same, ← back) found; valid = rw (← same) valid })
            | inr stale ↦ inr (
                renewed old u found stale (
                  subst
                    (λ b.
                      (if b then pure (some old) else refresh_session p f ids now i old) u
                      ≡ (ok (some x), t))
                    stale k))
          ]

  -- If every token response is good for longer than the window, then so is the access token of each
  -- session that `ensureFreshSession` returns: it expires more than the window after now.
  pub ensure_fresh_session_bound :
      (s t : IdentityDb) (x : AppSession)
      → ((token : String) (tokens : TokenSet)
          → refresh_auth0_tokens p.env.auth0 p.auth0 token ≡ ok tokens
          → p.env.refresh_window < tokens.expires_in)
      → ensure_fresh_session p f ids now i s ≡ (ok (some x), t)
      → now + refresh_window_ms p < x.access_token_expires_at
  ensure_fresh_session_bound s t x long h = elim (fresh_cases s t x h) [
    | inl k ↦ (let v = k.valid in ground arith)
    | inr r ↦
        (let lasts = long r.token r.tokens r.answered in let e = r.renews.expires in omega arith)
  ]

  -- With a cipher that keeps its promise and IVs of bytes: a session that `ensureFreshSession`
  -- returns is the stored one, outside the window; or it was
  -- renewed: its access token and expiry are those of Auth0's answer to the stored refresh token, and
  -- its refresh token decrypts to the new one, or to the old one where Auth0 sent none.
  pub ensure_fresh_session-Renewed :
      (s t : IdentityDb) (x : AppSession)
      → IsCipher p.crypto
      → IsBytes ids.access_iv
      → IsBytes ids.refresh_iv
      → ensure_fresh_session p f ids now i s ≡ (ok (some x), t)
      → StillGood s t x
        ⊎ ((r : Renewed s x) × (x.access_token ≡ r.tokens.access_token)
            × (x.access_token_expires_at ≡ now + r.tokens.expires_in * 1000)
            × (decrypt_secret p.crypto p.env.encryption_key x.refresh_token_ciphertext
                ≡ ok (get_or r.tokens.refresh_token r.token)))
  ensure_fresh_session-Renewed s t x c a b h = elim (fresh_cases s t x h) [
    | inl k ↦ inl k
    | inr r ↦ inr (
      r,
      (let e =
            decrypt_secret-encrypt_secret p.crypto p.env.encryption_key c ids.access_iv a
              r.tokens.access_token in
          cc (e, r.renews.access)),
      r.renews.expires,
      rw
          (
            r.renews.refresh,
            decrypt_secret-encrypt_secret p.crypto p.env.encryption_key c ids.refresh_iv b
                r.renews.kept,
          )
          (kept_is r.old r.token r.tokens.refresh_token r.renews.kept r.decrypts r.renews.keeps),
    )
  ]
    where
      kept_is :
          (old : AppSession) (token : String) (o : Option String) (kept : String)
          → decrypt_secret p.crypto p.env.encryption_key old.refresh_token_ciphertext ≡ ok token
          → next_refresh_token p old o ≡ ok kept
          → ok kept ≡ ok (get_or o token)
      kept_is old token none kept d k = cc
      kept_is old token (some y) kept d k = cc
