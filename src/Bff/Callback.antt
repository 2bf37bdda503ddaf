-- ===== src/Bff/Callback.antt =====
-- What a login must have passed before it writes anything.
use node_with_aoth.Prelude.{
  ℕ, ◌≡◌, ◌==◌, refl, sym, ap, ◌∙◌, ◌⊎◌, inl, inr, String, true, Option, none, some, arith,
  Bool-cases, ==_iff,
}
use node_with_aoth.Shared.{get_or, is_text}
use node_with_aoth.Database.Action.{Result, ok, err, pure, lift, follow, ◌>>=◌}
use node_with_aoth.Identity.Tables.{IdentityDb}
use node_with_aoth.Identity.Tokens.{
  Auth0Env, Auth0, TokenSet, Claims, verified_claims, verify_id_token, exchange_authorization_code,
}
use node_with_aoth.Bff.Repository.{Draws, QueryFaults, create_user_session}
use node_with_aoth.Bff.Http.{Platform, LoginTx, BffRequest}
use node_with_aoth.Bff.Sessions.{nonempty}
use node_with_aoth.Bff.Auth.{
  user_session, logged_in, finish_login, with_tx, with_signed, with_query, callback_controller,
}

nonempty-eq-some : (o : Option String) (x : String) → nonempty o ≡ some x → o ≡ some x
nonempty-eq-some none x h = absurd (cc)
nonempty-eq-some (some s) x h = ground arith

-- A token that `verifyIdToken` accepts carries the nonce.
verify_id_token-nonce :
    (env : Auth0Env) (auth0 : Auth0) (o : Option String) (nonce : String) (claims : Claims)
    → verify_id_token env auth0 o nonce ≡ ok claims
    → (token : String) × (o ≡ some token)
      × (auth0.check_jwt token env.client_id ≡ some claims)
      × (claims.nonce ≡ some nonce)
unfolding verify_id_token
verify_id_token-nonce env auth0 none nonce claims h = absurd (cc)
verify_id_token-nonce env auth0 (some token) nonce claims h =
    let (e, n) = by_claims (auth0.check_jwt token env.client_id) refl h in (token, refl, e, n)
  where
    same_nonce : (o : Option String) → is_text o nonce ≡ true → o ≡ some nonce
    same_nonce none k = absurd (cc)
    same_nonce (some n) k = ap (λ (x : String). some x) ((==_iff n nonce).0 k)

    by_claims :
        (o : Option Claims)
        → auth0.check_jwt token env.client_id ≡ o
        → verified_claims nonce o ≡ ok claims
        → (auth0.check_jwt token env.client_id ≡ some claims) × (claims.nonce ≡ some nonce)
    by_claims none e k = absurd (cc)
    by_claims (some payload) e k = elim (Bool-cases (is_text payload.nonce nonce)) [
      | inr other ↦ absurd (ground arith)
      | inl n ↦
          let same : payload ≡ claims = ground arith in
          (
            e ∙ ap (λ (x : Claims). some x) same,
            sym (ap (λ (x : Claims). x.nonce) same) ∙ same_nonce payload.nonce n,
          )
    ]

module _ (p : Platform) (f : QueryFaults) (ids : Draws) (now : ℕ) (csrf_token : String)
    (request : BffRequest) (s : IdentityDb) where
  -- The transaction of a signed cookie, the code and the state of the query, Auth0's answer for the
  -- code and the verifier, and the checked ID token with its nonce.
  pub record Checked : Type 0 where
    pub code : String
    pub state : String
    pub cookie : String
    pub tx : LoginTx
    pub tokens : TokenSet
    pub id_token : String
    pub claims : Claims
    pub has_code : request.code ≡ some code
    pub has_state : request.state ≡ some state
    pub signed : p.cookies.unsign (get_or request.auth0_tx "") ≡ some cookie
    pub parsed : p.cookies.parse cookie ≡ some tx
    pub same_state : tx.state ≡ state
    pub exchanged : exchange_authorization_code p.env.auth0 p.auth0 code tx.verifier ≡ ok tokens
    pub has_id_token : tokens.id_token ≡ some id_token
    pub verified : p.auth0.check_jwt id_token p.env.auth0.client_id ≡ some claims
    pub same_nonce : claims.nonce ≡ some tx.nonce

  -- Whatever fails, a login callback changes nothing unless its query has a code and a state, its
  -- cookie is signed and holds a transaction of that state, Auth0 gives tokens for the code and the
  -- transaction's verifier, and the ID token among them is accepted for this client and carries the
  -- transaction's nonce.
  pub callback_controller-Checked :
      ((callback_controller p f ids now csrf_token request s).1 ≡ s) ⊎ Checked
  unfolding callback_controller finish_login
  callback_controller-Checked = by_query (nonempty request.code) (nonempty request.state) refl refl
    where
      by_claims :
          (code state cookie : String) (tx : LoginTx) (tokens : TokenSet) (r : Result Claims)
          → request.code ≡ some code
          → request.state ≡ some state
          → p.cookies.unsign (get_or request.auth0_tx "") ≡ some cookie
          → p.cookies.parse cookie ≡ some tx
          → tx.state ≡ state
          → exchange_authorization_code p.env.auth0 p.auth0 code tx.verifier ≡ ok tokens
          → verify_id_token p.env.auth0 p.auth0 tokens.id_token tx.nonce ≡ r
          → ((follow
                (λ claims.
                  create_user_session p.crypto p.env.encryption_key f ids now
                    (user_session p now csrf_token tokens claims)
                  >>= λ i. pure (logged_in p i csrf_token))
                (r, s)).1
              ≡ s)
            ⊎ Checked
      by_claims code state cookie tx tokens (err e) c1 c2 c3 c4 c5 c6 v = inl refl
      by_claims code state cookie tx tokens (ok claims) c1 c2 c3 c4 c5 c6 v =
          let (id_token, has_token, jwt, nonce) =
            verify_id_token-nonce p.env.auth0 p.auth0 tokens.id_token tx.nonce claims v in
          inr (record {
            code = code;
            state = state;
            cookie = cookie;
            tx = tx;
            tokens = tokens;
            id_token = id_token;
            claims = claims;
            has_code = c1;
            has_state = c2;
            signed = c3;
            parsed = c4;
            same_state = c5;
            exchanged = c6;
            has_id_token = has_token;
            verified = jwt;
            same_nonce = nonce;
          })

      by_tokens :
          (code state cookie : String) (tx : LoginTx) (r : Result TokenSet)
          → request.code ≡ some code
          → request.state ≡ some state
          → p.cookies.unsign (get_or request.auth0_tx "") ≡ some cookie
          → p.cookies.parse cookie ≡ some tx
          → tx.state ≡ state
          → exchange_authorization_code p.env.auth0 p.auth0 code tx.verifier ≡ r
          → ((follow
                (λ (tokens : TokenSet).
                  lift (verify_id_token p.env.auth0 p.auth0 tokens.id_token tx.nonce) >>= λ claims.
                  create_user_session p.crypto p.env.encryption_key f ids now
                    (user_session p now csrf_token tokens claims)
                  >>= λ i. pure (logged_in p i csrf_token))
                (r, s)).1
              ≡ s)
            ⊎ Checked
      by_tokens code state cookie tx (err e) c1 c2 c3 c4 c5 c6 = inl refl
      by_tokens code state cookie tx (ok tokens) c1 c2 c3 c4 c5 c6 =
          by_claims code state cookie tx tokens
            (verify_id_token p.env.auth0 p.auth0 tokens.id_token tx.nonce) c1 c2 c3 c4 c5 c6 refl

      by_tx :
          (code state cookie : String) (o : Option LoginTx)
          → request.code ≡ some code
          → request.state ≡ some state
          → p.cookies.unsign (get_or request.auth0_tx "") ≡ some cookie
          → p.cookies.parse cookie ≡ o
          → ((with_tx p f ids now csrf_token code state o s).1 ≡ s) ⊎ Checked
      by_tx code state cookie none c1 c2 c3 c4 = inl refl
      by_tx code state cookie (some tx) c1 c2 c3 c4 = elim (Bool-cases (tx.state == state)) [
        | inr other ↦ inl (rw other refl)
        | inl same ↦ rw same (
            by_tokens code state cookie tx
              (exchange_authorization_code p.env.auth0 p.auth0 code tx.verifier) c1 c2 c3 c4
              ((==_iff tx.state state).0 same) refl)
      ]

      by_cookie :
          (code state : String) (o : Option String)
          → request.code ≡ some code
          → request.state ≡ some state
          → nonempty (p.cookies.unsign (get_or request.auth0_tx "")) ≡ o
          → ((with_signed p f ids now csrf_token code state o s).1 ≡ s) ⊎ Checked
      by_cookie code state none c1 c2 c3 = inl refl
      by_cookie code state (some cookie) c1 c2 c3 =
          by_tx code state cookie (p.cookies.parse cookie) c1 c2
            (nonempty-eq-some (p.cookies.unsign (get_or request.auth0_tx "")) cookie c3) refl

      by_query :
          (code state : Option String)
          → nonempty request.code ≡ code
          → nonempty request.state ≡ state
          → ((with_query p f ids now request csrf_token code state s).1 ≡ s) ⊎ Checked
      by_query none state c1 c2 = inl refl
      by_query (some code) none c1 c2 = inl refl
      by_query (some code) (some state) c1 c2 =
          by_cookie code state (nonempty (p.cookies.unsign (get_or request.auth0_tx "")))
            (nonempty-eq-some request.code code c1) (nonempty-eq-some request.state state c2) refl
