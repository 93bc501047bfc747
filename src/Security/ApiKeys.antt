-- ===== src/Security/ApiKeys.antt =====
-- backend/security/auth/api_key_manager.py: API keys, stored by their SHA-256 digest.
pub mod Unique
pub mod Lifecycle
use Prim.Native.String.{◌++◌}
use osint_platform_core.Base.{
  ℕ, String, Bool, true, false, Option, none, some, List, [], ◌∷◌, ◌==◌, ltb, str_eq, any, keep,
  if◌then◌else◌, ◌&&◌, ◌||◌,
}
use osint_platform_core.Base.Rows.{find, update}
use osint_platform_core.Base.Http.{Outcome, ok, unhandled, Handler}
use osint_platform_core.Security.Accounts.{ApiKey, Db}

-- `token_hex` is what `secrets.token_hex(32)` returns.
unfoldable pub generate_api_key : (token_hex : String) → String
generate_api_key token_hex = "osint_" ++ token_hex

abbrev pub has_hash : String → ApiKey → Bool
has_hash h k = str_eq k.key_hash h

abbrev pub is_live : String → ApiKey → Bool
is_live h k = str_eq k.key_hash h && k.is_active

-- `now > expires`, for a key with an expiry
abbrev pub is_expired : ℕ → Option ℕ → Bool
is_expired now none = false
is_expired now (some expires) = ltb expires now

-- the end of `validate_api_key`, from the row that the query found
check_expiry : ℕ → Option ApiKey → Option ApiKey
check_expiry now none = none
check_expiry now (some k) = if is_expired now k.expires_at then none else some k

-- The row of `list_user_api_keys` goes where its creation date says, newest first.
insert_newest : ApiKey → List ApiKey → List ApiKey
insert_newest k [] = k ∷ []
insert_newest k (j ∷ js) =
    if ltb k.created_at j.created_at then j ∷ insert_newest k js else k ∷ j ∷ js

sort_newest : List ApiKey → List ApiKey
unfolding insert_newest
sort_newest [] = []
sort_newest (k ∷ ks) = insert_newest k (sort_newest ks)

-- `sha256` is `hashlib`'s hex digest of the key's bytes.
module _ (sha256 : String → String) where
  unfoldable pub hash_api_key : String → String
  hash_api_key key = sha256 key

  pub verify_api_key : String → String → Bool
  unfolding hash_api_key
  verify_api_key key key_hash = str_eq (hash_api_key key) key_hash

  -- `id` and `created_at` are what the server generates for the row. The insert fails on the
  -- unique columns `id` and `key_hash`.
  unfoldable pub create_api_key :
      (id created_at : ℕ) (token_hex : String) (user_id : ℕ) (name : String)
      → (permissions : List String) → (expires_at : Option ℕ) → Handler Db (ApiKey × String)
  unfolding hash_api_key generate_api_key
  create_api_key id created_at token_hex user_id name permissions expires_at db =
      let raw_key = generate_api_key token_hex in
      let api_key : ApiKey = record {
        id = id;
        key_hash = hash_api_key raw_key;
        name = name;
        user_id = user_id;
        permissions = permissions;
        is_active = true;
        expires_at = expires_at;
        created_at = created_at;
        last_used_at = none;
      } in
      if any (λ k. str_eq k.key_hash (hash_api_key raw_key) || k.id == id) db.api_keys
      then (unhandled "IntegrityError", db)
      else (ok (api_key, raw_key), record db { api_keys = api_key ∷ db.api_keys })

  unfoldable pub validate_api_key : (now : ℕ) → (raw_key : String) → Db → Option ApiKey
  unfolding hash_api_key check_expiry
  validate_api_key now raw_key db =
      check_expiry now (find (is_live (hash_api_key raw_key)) db.api_keys)

unfoldable pub revoke_api_key : (api_key_id : ℕ) → Db → Bool × Db
revoke_api_key api_key_id db = (
  any (λ k. k.id == api_key_id) db.api_keys,
  record db {
    api_keys = update (λ k. k.id == api_key_id) (λ k. record k { is_active = false }) db.api_keys;
  },
)

unfoldable pub list_user_api_keys : (user_id : ℕ) → Db → List ApiKey
unfolding sort_newest
list_user_api_keys user_id db = sort_newest (keep (λ k. k.user_id == user_id) db.api_keys)

-- An error of the statement is logged and dropped, so the best effort may also change nothing.
unfoldable pub update_last_used : (now : ℕ) → (succeeds : Bool) → (api_key_id : ℕ) → Db → Db
update_last_used now succeeds api_key_id db =
    if succeeds
    then record db {
      api_keys =
          update (λ k. k.id == api_key_id) (λ k. record k { last_used_at = some now }) db.api_keys;
    }
    else db
