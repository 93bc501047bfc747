-- ===== src/Api/Auth/Examples.antt =====
-- The theorems about the authentication router at concrete inputs.
use osint_platform_core.Base.{
  String, true, false, none, some, [], ◌∷◌, ◌≡◌, refl, arith, str_eq, if◌then◌else◌,
}
use osint_platform_core.Base.Http.{ok, http_exception}
use osint_platform_core.Storage.Queries.{exists_by_field, count_records}
use osint_platform_core.Security.Accounts.{User, ApiKey, Db}
use osint_platform_core.Api.Auth.Keys.{
  ApiKeyCreate, ApiKeyResponse, response, key_of, create_api_key,
}
use osint_platform_core.Security.Identity.{Claims, Externals}
use osint_platform_core.Api.Auth.{
  Settings, UserCreate, new_user, register, login, refresh, tokens, get_current_user,
}
use osint_platform_core.Api.Auth.Tokens.{
  logged_in, register-login-get_current_user, tokens_are_not_interchangeable,
}

abbrev settings : Settings
settings = record { jwt_expire_minutes = 60; jwt_refresh_expire_days = 7 }

abbrev access : Claims
access = record { sub = some "2"; type = some "access"; role = some "admin"; exp = 4600 }

abbrev renewal : Claims
renewal = record { sub = some "2"; type = some "refresh"; role = none; exp = 605800 }

abbrev kind : Claims → String
kind c = elim c.role [ none ↦ "renewal" | some r ↦ "access" ]

abbrev library : Externals
library = record {
  sha256 = λ s. s;
  decode = λ now token.
      if str_eq token "access"
      then some access
      else if str_eq token "renewal"
      then some renewal
      else none;
  encode = kind;
  hash_password = λ p. p;
  verify_password = λ p h. str_eq p h;
  parse_uuid = λ s. if str_eq s "2" then some 2 else none;
  show_uuid = λ id. "2";
}

abbrev ada : User
ada = record {
  id = 1;
  username = "ada";
  email = "ada@example.org";
  hashed_password = "h";
  role = "analyst";
  is_active = true;
  is_superuser = false;
  last_login = none;
}

abbrev db : Db
db = record { users = ada ∷ []; api_keys = [] }

abbrev eve : UserCreate
eve = record { username = "eve"; email = "eve@example.org"; password = "Secret123"; role = "admin" }

abbrev made : User
made = new_user library settings 1000 eve 2

registration : (register library settings 1000 eve 2 db).0 ≡ ok made
unfolding register exists_by_field count_records
registration = refl

tokens_are_not_interchangeable_example :
    (get_current_user library settings 1500
        (some (tokens library settings 1000 made).refresh_token)
        db
      ≡ (http_exception 401 "Expected an access token", db))
    × (refresh library settings 1500 (tokens library settings 1000 made).access_token db
        ≡ (http_exception 401 "Token is not a refresh token", db))
tokens_are_not_interchangeable_example =
    tokens_are_not_interchangeable library settings 1000 1500 made db refl refl

register-login-get_current_user_example :
    let (answer, after) =
      login library settings 1000 "eve" "Secret123" (register library settings 1000 eve 2 db).1 in
    (answer ≡ ok (tokens library settings 1000 made))
    × (get_current_user library settings 1500
          (some (tokens library settings 1000 made).access_token)
          after
        ≡ (ok (logged_in library settings 1000 made), after))
register-login-get_current_user_example =
    register-login-get_current_user library settings 1000 eve 2 1500 db made (refl, tt) refl refl
      (λ early. refl) (omega arith) registration

abbrev ada_key : ApiKey
ada_key = record {
  id = 5;
  key_hash = "osint_00";
  name = "script";
  user_id = 1;
  permissions = [];
  is_active = true;
  expires_at = none;
  created_at = 10;
  last_used_at = none;
}

abbrev db_with_key : Db
db_with_key = record db { api_keys = ada_key ∷ [] }

abbrev key_body : ApiKeyCreate
key_body = record { name = "cli"; permissions = []; expires_in_days = some 1 }

abbrev cli_response : ApiKeyResponse
cli_response = response (key_of (λ s. s) 1000 6 "01" key_body ada) (some "osint_01")

key_creation : (create_api_key (λ s. s) 1000 6 "01" key_body ada db_with_key).0 ≡ ok cli_response
unfolding create_api_key
key_creation = refl
