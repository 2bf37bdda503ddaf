-- ===== src/Bff/Repository.antt =====
-- repositories/session.repository.ts of apps/bff, on the identity tables. Each `pool.query` is a
-- statement of its own: what an earlier one wrote stays when a later one fails.
mod Users
unfoldable pub use Users.*
use node_with_aoth.Prelude.{
  ℕ, ◌+◌, String, Bool, true, false, ◌&&◌, ◌||◌, not, Option, none, some, List, [], ◌∷◌, ◌++◌, map,
  ◌==◌, if◌then◌else◌,
}
use node_with_aoth.Shared.{is_text, or_else}
use node_with_aoth.Database.Action.{
  Error, unique_violation, ok, err, Action, pure, raise, lift, gets, modify, not_null, ◌>>=◌, ◌>>◌,
}
use node_with_aoth.Identity.Tables.{User, Coded, Session, IdentityDb}
use node_with_aoth.Identity.Authorizations.{join}
use node_with_aoth.Identity.Secrets.{Crypto, encrypt_secret, decrypt_secret}

-- A statement that fails before it has an effect, or that is executed.
abbrev pub query : {S A : Type 0} → Option Error → Action S A → Action S A
query (some e) m = raise e
query none m = m

-- `AppSession`
pub record AppSession : Type 0 where
  pub id : String
  pub access_token : String
  pub access_token_expires_at : ℕ
  pub refresh_token_ciphertext : String
  pub refresh_token_expires_at : Option ℕ
  pub csrf_token : String
  pub auth0_sub : String
  pub email : String
  pub display_name : Option String

abbrev pub is_none : {A : Type 0} → Option A → Bool
is_none none = true
is_none (some x) = false

abbrev pub first_row : {A : Type 0} → List A → Option A
first_row [] = none
first_row (x ∷ xs) = some x

-- WHERE s.id = $1 AND s.revoked_at IS NULL
abbrev pub is_open : String → Session → Bool
is_open i s = s.id == i && is_none s.revoked_at

-- The columns of the SELECT, with the access token as it is stored.
abbrev pub session_row : Session → User → AppSession
session_row s u = record {
  id = s.id;
  access_token = s.access_token;
  access_token_expires_at = s.access_token_expires_at;
  refresh_token_ciphertext = s.refresh_token_ciphertext;
  refresh_token_expires_at = s.refresh_token_expires_at;
  csrf_token = s.csrf_token;
  auth0_sub = u.auth0_sub;
  email = u.email;
  display_name = u.display_name;
}

abbrev pub session_rows : String → IdentityDb → List AppSession
session_rows i db =
    join (is_open i) db.sessions
      λ s. join (λ (u : User). u.id == s.user_id) db.users λ u. session_row s u ∷ []

-- INSERT INTO identity.sessions
abbrev pub has_session : String → List Session → Bool
has_session i [] = false
has_session i (s ∷ ss) = s.id == i || has_session i ss

unfoldable pub insert_session : Session → Action IdentityDb (Unit {0})
insert_session s db =
    if has_session s.id db.sessions
    then (err unique_violation, db)
    else (ok tt, record db { sessions = db.sessions ++ s ∷ [] })

abbrev pub revoke_row : String → ℕ → Session → Session
revoke_row i now s = if s.id == i then record s { revoked_at = some now } else s

-- `now` is `NOW()`, in milliseconds.
unfoldable pub revoke_session : Option Error → ℕ → String → Action IdentityDb (Unit {0})
revoke_session failure now i =
    query failure (modify λ db. record db { sessions = map (revoke_row i now) db.sessions })

-- `randomUUID()` for the user and the session, and `randomBytes(12)` for the two encryptions.
pub record Draws : Type 0 where
  pub user_id : String
  pub session_id : String
  pub refresh_iv : List ℕ
  pub access_iv : List ℕ

-- The failures of the statements of one request.
pub record QueryFaults : Type 0 where
  pub load : Option Error
  pub update : Option Error
  pub reload : Option Error
  pub rights : Option Error
  pub user : Option Error
  pub insert : Option Error
  pub revoke : Option Error

abbrev pub no_query_faults : QueryFaults
no_query_faults = record {
  load = none;
  update = none;
  reload = none;
  rights = none;
  user = none;
  insert = none;
  revoke = none;
}

-- The body of a group membership, which no schema checks.
pub record GroupMembership : Type 0 where
  pub auth0_sub : Option String
  pub email : Option String
  pub display_name : Option String
  pub group_code : Option String

-- The first statement, whose last value is `displayName ?? email`: `auth0_sub` and `email` are NOT NULL.
abbrev pub upsert_profile : String → GroupMembership → Action IdentityDb String
upsert_profile user_id body = do
  sub ← lift (not_null body.auth0_sub)
  email ← lift (not_null body.email)
  upsert_user user_id sub email (or_else body.display_name body.email)

unfoldable pub upsert_user_group_membership :
    QueryFaults → String → GroupMembership → Action IdentityDb (Unit {0})
upsert_user_group_membership f user_id body = do
  i ← query f.user (upsert_profile user_id body)
  query f.insert (insert_member i body.group_code)

pub record TokenUpdate : Type 0 where
  pub session_id : String
  pub access_token : String
  pub access_token_expires_at : ℕ
  pub refresh_token : String

pub record UserSession : Type 0 where
  pub auth0_sub : String
  pub email : String
  pub display_name : String
  pub refresh_token : String
  pub access_token : String
  pub access_token_expires_at : ℕ
  pub id_token : String
  pub csrf_token : String

module _ (c : Crypto) (env_key : String) where
  abbrev pub decrypted : Option AppSession → Action IdentityDb (Option AppSession)
  decrypted none = pure none
  decrypted (some row) = do
    token ← lift (decrypt_secret c env_key row.access_token)
    pure (some (record row { access_token = token }))

  unfoldable pub load_session : Option Error → String → Action IdentityDb (Option AppSession)
  load_session failure i = do
    row ← query failure (gets λ db. first_row (session_rows i db))
    decrypted row

  abbrev pub update_row : Draws → TokenUpdate → Session → Session
  update_row ids t s =
      if s.id == t.session_id
      then record s {
        access_token = encrypt_secret c env_key ids.access_iv t.access_token;
        access_token_expires_at = t.access_token_expires_at;
        refresh_token_ciphertext = encrypt_secret c env_key ids.refresh_iv t.refresh_token;
      }
      else s

  unfoldable pub update_session_tokens :
      Option Error → Draws → TokenUpdate → Action IdentityDb (Unit {0})
  update_session_tokens failure ids t =
      query failure (modify λ db. record db { sessions = map (update_row ids t) db.sessions })

  -- `NOW() + INTERVAL '30 days'`
  abbrev pub new_session : Draws → ℕ → UserSession → String → Session
  new_session ids now input user_id = record {
    id = ids.session_id;
    user_id = user_id;
    refresh_token_ciphertext = encrypt_secret c env_key ids.refresh_iv input.refresh_token;
    refresh_token_expires_at = some (now + 2592000000);
    access_token = encrypt_secret c env_key ids.access_iv input.access_token;
    access_token_expires_at = input.access_token_expires_at;
    id_token = some input.id_token;
    csrf_token = input.csrf_token;
    revoked_at = none;
  }

  unfoldable pub create_user_session :
      QueryFaults → Draws → ℕ → UserSession → Action IdentityDb String
  create_user_session f ids now input = do
    user_id ←
        query f.user (upsert_user ids.user_id input.auth0_sub input.email (some input.display_name))
    query f.insert (insert_session (new_session ids now input user_id))
    pure ids.session_id
