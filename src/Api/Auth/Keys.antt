-- ===== src/Api/Auth/Keys.antt =====
-- backend/api/v1/routes/auth.py, the routes under `/auth/api-keys`.
pub mod Ownership
use Prim.Native.String.{◌++◌}
use osint_platform_core.Base.{
  ℕ, ◌+◌, ◌*◌, String, Bool, true, false, Option, none, some, List, [], ◌∷◌, ◌==◌, str_eq, any, map,
  not, if◌then◌else◌, ◌&&◌, ◌||◌,
}
use osint_platform_core.Base.Rows.{update}
use osint_platform_core.Base.Http.{Outcome, ok, Handler, fail, crash}
use osint_platform_core.Storage.Queries.{get_all, create_record, get_by_id}
use osint_platform_core.Security.Accounts.{User, ApiKey, Db}

pub record ApiKeyCreate : Type 0 where
  pub name : String
  pub permissions : List String
  pub expires_in_days : Option ℕ

-- `key` is only set on creation.
pub record ApiKeyResponse : Type 0 where
  pub id : ℕ
  pub name : String
  pub permissions : List String
  pub is_active : Bool
  pub expires_at : Option ℕ
  pub created_at : ℕ
  pub key : Option String

abbrev pub expiry : (now : ℕ) → Option ℕ → Option ℕ
expiry now none = none
expiry now (some days) = if days == 0 then none else some (now + days * 86400)

abbrev pub response : ApiKey → Option String → ApiKeyResponse
response k key = record {
  id = k.id;
  name = k.name;
  permissions = k.permissions;
  is_active = k.is_active;
  expires_at = k.expires_at;
  created_at = k.created_at;
  key = key;
}

abbrev pub raw_key_of : (token_urlsafe : String) → String
raw_key_of token_urlsafe = "osint_" ++ token_urlsafe

module _ (sha256 : String → String) where
  abbrev pub key_of : (now id : ℕ) (token_urlsafe : String) → ApiKeyCreate → User → ApiKey
  key_of now id token_urlsafe body user = record {
    id = id;
    key_hash = sha256 (raw_key_of token_urlsafe);
    name = body.name;
    user_id = user.id;
    permissions = body.permissions;
    is_active = true;
    expires_at = expiry now body.expires_in_days;
    created_at = now;
    last_used_at = none;
  }

  -- `id` is what the server generates, and `token_urlsafe` what `secrets.token_urlsafe(40)` returns.
  -- The insert fails on the unique columns `id` and `key_hash`.
  unfoldable pub create_api_key :
      (now id : ℕ) (token_urlsafe : String) → ApiKeyCreate → User → Handler Db ApiKeyResponse
  unfolding create_record
  create_api_key now id token_urlsafe body user db =
      let k = key_of now id token_urlsafe body user in
      if any (λ j. str_eq j.key_hash k.key_hash || j.id == id) db.api_keys
      then crash "IntegrityError" db
      else (
        ok (response k (some (raw_key_of token_urlsafe))),
        record db { api_keys = create_record k db.api_keys },
      )

unfoldable pub list_api_keys : User → Db → List ApiKeyResponse
unfolding get_all
list_api_keys user db =
    map (λ k. response k none) (get_all 0 100 (λ k. k.user_id == user.id) db.api_keys)

abbrev pub deactivated : (key_id : ℕ) → Db → Db
deactivated key_id db = record db {
  api_keys = update (λ k. k.id == key_id) (λ k. record k { is_active = false }) db.api_keys;
}

-- from the key that was found
revoke_found : (key_id : ℕ) → User → Option ApiKey → Handler Db (Unit {0})
revoke_found key_id user none db = fail 404 "API key not found" db
revoke_found key_id user (some k) db =
    if not (k.user_id == user.id)
    then fail 404 "API key not found" db
    else (ok tt, deactivated key_id db)

unfoldable pub revoke_api_key : (key_id : ℕ) → User → Handler Db (Unit {0})
unfolding get_by_id revoke_found
revoke_api_key key_id user db =
    revoke_found key_id user (get_by_id (λ k. k.id) key_id db.api_keys) db
