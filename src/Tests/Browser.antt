-- ===== src/Tests/Browser.antt =====
-- A browser's session: created, renewed, used and ended.
use node_with_aoth.Prelude.{
  ◌≡◌, ◌≢◌, ◌<◌, ◌+◌, ◌*◌, refl, String, true, false, none, some, [], ◌∷◌, ◌⊎◌, arith,
}
use node_with_aoth.Shared.{get_or}
use node_with_aoth.Database.Action.{ok}
use node_with_aoth.Identity.Tables.{IdentityDb}
use node_with_aoth.Identity.Hex.{to_hex, of_hex, split_dots}
use node_with_aoth.Identity.Secrets.{encrypt_secret, decrypt_secret, decrypt_secret-encrypt_secret}
use node_with_aoth.Identity.Tokens.{
  TokenSet, Claims, verify_id_token, exchange_authorization_code, refresh_auth0_tokens,
  revoke_refresh_token,
}
use node_with_aoth.Orders.Controller.{absent, one}
use node_with_aoth.Bff.Repository.{
  AppSession, Draws, no_query_faults, UserSession, insert_session, upsert_user, load_session,
  update_session_tokens, create_user_session, revoke_session,
}
use node_with_aoth.Bff.Http.{Platform, LoginTx, BffRequest, message, logged_out}
use node_with_aoth.Bff.Sessions.{
  refresh_session, ensure_fresh_session, require_session, refresh_window_ms,
}
use node_with_aoth.Bff.Auth.{finish_login, callback_controller, logout_controller}
use node_with_aoth.Bff.Routes.{auth_session, auth_logout, handle, here, next, asks}
use node_with_aoth.Bff.Logout.{Presents, logout-final}
use node_with_aoth.Bff.Fresh.{
  StillGood, Renewed, ensure_fresh_session_bound, ensure_fresh_session-Renewed,
}
use node_with_aoth.Bff.Creation.{loaded_session, load_session-create_user_session}
use node_with_aoth.Bff.Callback.{Checked, callback_controller-Checked}
use node_with_aoth.Bff.Subjects.{UniqueUsers, Reach-UniqueUsers}
use node_with_aoth.Tests.Cipher.{open_cipher, open_cipher-IsCipher}

abbrev tokens : TokenSet
tokens = record {
  access_token = "t2";
  refresh_token = none;
  id_token = some "i2";
  expires_in = 600;
}

abbrev claims : Claims
claims = record {
  sub = some "auth0|ann";
  email = some "ann@local.invalid";
  name = none;
  nonce = some "n1";
}

abbrev tx : LoginTx
tx = record { verifier = "v1"; state = "x1"; nonce = "n1" }

abbrev p : Platform
p = record {
  env = record {
    auth0 = record {
      domain = "d";
      client_id = "c";
      client_secret = "s";
      audience = "a";
      redirect_uri = "r";
      post_logout_redirect_uri = "l";
      scope = "openid offline_access";
    };
    encryption_key = "k";
    session_cookie_name = "app_session";
    session_cookie_domain = "localhost";
    csrf_cookie_name = "app_csrf";
    refresh_window = 120;
    is_production = false;
  };
  crypto = open_cipher;
  auth0 = record {
    token_endpoint = λ r. some tokens;
    revoke = λ r. some true;
    check_jwt = λ t a. some claims;
    query_string = λ q. "q";
  };
  cookies = record {
    sign = λ s. s;
    unsign = λ s. some s;
    stringify = λ t. t.state;
    parse = λ s. some tx;
  };
}

abbrev ids : Draws
ids = record { user_id = "u1"; session_id = "s1"; refresh_iv = 7 ∷ 200 ∷ []; access_iv = 9 ∷ [] }

abbrev request : BffRequest
request = record {
  id = "q1";
  csrf_header = one "f1";
  idempotency_key = absent;
  session_cookie = some "s1";
  csrf_cookie = some "f1";
  auth0_tx = some "x1";
  code = some "c1";
  state = some "x1";
  membership = record { auth0_sub = none; email = none; display_name = none; group_code = none };
  body = record { item_sku = none; quantity = none; total_amount = none; currency = none };
}

abbrev nobody : IdentityDb
nobody = record {
  users = [];
  groups = [];
  privileges = [];
  user_group = [];
  group_privileges = [];
  sessions = [];
}

abbrev input : UserSession
input = record {
  auth0_sub = "auth0|ann";
  email = "ann@local.invalid";
  display_name = "Ann";
  refresh_token = "r1";
  access_token = "t1";
  access_token_expires_at = 600000;
  id_token = "i1";
  csrf_token = "f1";
}

decrypt_secret-encrypt_secret_example :
    decrypt_secret open_cipher "k" (encrypt_secret open_cipher "k" (9 ∷ []) "t1") ≡ ok "t1"
decrypt_secret-encrypt_secret_example =
    decrypt_secret-encrypt_secret open_cipher "k" open_cipher-IsCipher (9 ∷ []) (omega arith) "t1"

abbrev with_session : IdentityDb
with_session = (create_user_session open_cipher "k" no_query_faults ids 0 input nobody).1

creation :
    create_user_session open_cipher "k" no_query_faults ids 0 input nobody ≡ (ok "s1", with_session)
unfolding create_user_session upsert_user insert_session
creation = refl

load_session-create_user_session_example :
    (load_session open_cipher "k" none "s1" with_session
      ≡ (ok (some (loaded_session open_cipher "k" no_query_faults ids 0 input)), with_session))
    × (decrypt_secret open_cipher "k"
          (loaded_session open_cipher "k" no_query_faults ids 0 input).refresh_token_ciphertext
        ≡ ok "r1")
load_session-create_user_session_example =
    load_session-create_user_session open_cipher "k" no_query_faults ids 0 input nobody with_session
      "s1" open_cipher-IsCipher (omega arith) (omega arith) tt creation

-- At 590 seconds the access token has ten left, and is renewed; Auth0 sends no new refresh token.
abbrev renewed : IdentityDb
renewed = (ensure_fresh_session p no_query_faults ids 590000 "s1" with_session).1

abbrev fresh : AppSession
fresh = record (loaded_session open_cipher "k" no_query_faults ids 0 input) {
  access_token = "t2";
  access_token_expires_at = 1190000;
}

renewal :
    ensure_fresh_session p no_query_faults ids 590000 "s1" with_session ≡ (ok (some fresh), renewed)
unfolding create_user_session upsert_user insert_session ensure_fresh_session refresh_session
    load_session update_session_tokens refresh_auth0_tokens encrypt_secret decrypt_secret to_hex
    of_hex split_dots
renewal = refl

long_lived :
    (token : String) (answer : TokenSet)
    → refresh_auth0_tokens p.env.auth0 p.auth0 token ≡ ok answer
    → 120 < answer.expires_in
unfolding refresh_auth0_tokens
long_lived token answer h = ground arith

ensure_fresh_session_bound_example : 590000 + refresh_window_ms p < fresh.access_token_expires_at
ensure_fresh_session_bound_example =
    ensure_fresh_session_bound p "s1" no_query_faults ids 590000 with_session renewed fresh
      long_lived renewal

ensure_fresh_session-Renewed_example :
    StillGood p "s1" no_query_faults ids 590000 with_session renewed fresh
    ⊎ ((r : Renewed p "s1" no_query_faults ids 590000 with_session fresh) × (fresh.access_token
          ≡ r.tokens.access_token)
        × (fresh.access_token_expires_at ≡ 590000 + r.tokens.expires_in * 1000)
        × (decrypt_secret p.crypto p.env.encryption_key fresh.refresh_token_ciphertext
            ≡ ok (get_or r.tokens.refresh_token r.token)))
ensure_fresh_session-Renewed_example =
    ensure_fresh_session-Renewed p "s1" no_query_faults ids 590000 with_session renewed fresh
      open_cipher-IsCipher (omega arith) (omega arith) renewal

abbrev after_logout : IdentityDb
after_logout =
    (handle p no_query_faults ids no_query_faults ids 0 auth_logout request with_session).1

logout :
    handle p no_query_faults ids no_query_faults ids 0 auth_logout request with_session
    ≡ (ok (logged_out ("app_session" ∷ "app_csrf" ∷ []) "https://d/v2/logout?q"), after_logout)
unfolding handle require_session logout_controller revoke_session revoke_refresh_token
    create_user_session upsert_user insert_session ensure_fresh_session refresh_session load_session
    update_session_tokens refresh_auth0_tokens encrypt_secret decrypt_secret to_hex of_hex
    split_dots
logout = refl

presents : Presents p request "s1"
presents = record { signed = refl; named = λ e. cc (e) }

-- The browser asks once more, in vain, and then the theorem speaks of the next request.
abbrev later : IdentityDb
later = (handle p no_query_faults ids no_query_faults ids 1 auth_session request after_logout).1

logout-final_example :
    handle p no_query_faults ids no_query_faults ids 2 auth_session request later
    ≡ (ok (message 401 "Session expired"), later)
logout-final_example =
    logout-final p no_query_faults ids no_query_faults ids 0 request "s1" with_session after_logout
      later ("app_session" ∷ "app_csrf" ∷ []) "https://d/v2/logout?q" presents logout
      (next here (asks no_query_faults ids no_query_faults ids 1 auth_session request refl))
      no_query_faults ids no_query_faults ids 2 auth_session request refl presents

-- A login whose query has the state of the transaction.
callback_controller-Checked_example :
    ((callback_controller p no_query_faults ids 0 "f1" request nobody).1 ≡ nobody)
    ⊎ Checked p no_query_faults ids 0 "f1" request nobody
callback_controller-Checked_example =
    callback_controller-Checked p no_query_faults ids 0 "f1" request nobody

has_logged_in : (callback_controller p no_query_faults ids 0 "f1" request nobody).1.sessions ≢ []
unfolding callback_controller finish_login exchange_authorization_code verify_id_token
    create_user_session upsert_user insert_session
has_logged_in e = cc (e)

Reach-UniqueUsers_example : UniqueUsers after_logout
unfolding create_user_session upsert_user insert_session
Reach-UniqueUsers_example =
    Reach-UniqueUsers p
      (next here (asks no_query_faults ids no_query_faults ids 0 auth_logout request refl))
      (record { ids = (refl, tt); subs = (refl, tt) })
