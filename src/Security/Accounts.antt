-- ===== src/Security/Accounts.antt =====
-- backend/storage/database/postgres/models.py: the rows of `users` and `api_keys`, and the part of
-- the database that authentication reads and writes. A UUID and a time are numbers.
use osint_platform_core.Base.{ℕ, String, Bool, Option, List}

pub record User : Type 0 where
  pub id : ℕ
  pub username : String
  pub email : String
  pub hashed_password : String
  pub role : String
  pub is_active : Bool
  pub is_superuser : Bool
  pub last_login : Option ℕ

pub record ApiKey : Type 0 where
  pub id : ℕ
  pub key_hash : String
  pub name : String
  pub user_id : ℕ
  pub permissions : List String
  pub is_active : Bool
  pub expires_at : Option ℕ
  pub created_at : ℕ
  pub last_used_at : Option ℕ

pub record Db : Type 0 where
  pub users : List User
  pub api_keys : List ApiKey
