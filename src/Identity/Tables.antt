-- ===== src/Identity/Tables.antt =====
-- The tables of the schema `identity`. Times are in milliseconds, as `Date` counts them; the columns
-- `created_at`, `updated_at` and `assigned_at`, which no code reads, are not modelled.
use node_with_aoth.Prelude.{ℕ, String, Option, List}

pub record User : Type 0 where
  pub id : String
  pub auth0_sub : String
  pub email : String
  pub display_name : Option String

pub record Coded : Type 0 where
  pub id : String
  pub code : String

pub record Session : Type 0 where
  pub id : String
  pub user_id : String
  pub refresh_token_ciphertext : String
  pub refresh_token_expires_at : Option ℕ
  pub access_token : String
  pub access_token_expires_at : ℕ
  pub id_token : Option String
  pub csrf_token : String
  pub revoked_at : Option ℕ

-- The two link tables are lists of pairs of ids.
pub record IdentityDb : Type 0 where
  pub users : List User
  pub groups : List Coded
  pub privileges : List Coded
  pub user_group : List (String × String)
  pub group_privileges : List (String × String)
  pub sessions : List Session
