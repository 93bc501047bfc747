-- ===== src/Security/Examples.antt =====
-- The theorems about backend/security/ at concrete inputs.
use osint_platform_core.Base.{
  ◌-◌, ◌≤◌, String, true, false, none, some, [], ◌∷◌, ◌≡◌, refl, arith, leb, length, if◌then◌else◌,
  str_eq, str_neq,
}
use osint_platform_core.Base.Http.{ok}
use osint_platform_core.Security.Accounts.{User, ApiKey, Db}
use osint_platform_core.Security.Roles.{
  viewer, entity_read, has_permission, is_at_least, role_from_string,
}
use osint_platform_core.Security.ApiKeys.{
  create_api_key, validate_api_key, revoke_api_key, is_expired,
}
use osint_platform_core.Security.ApiKeys.Lifecycle.{other_than, validate-revoke, validate-create}
use osint_platform_core.Security.Identity.{
  Claims, Externals, Request, get_current_user, get_optional_user, check_role,
}
use osint_platform_core.Security.Identity.Agreement.{optional-of-current}
use osint_platform_core.Security.RateLimiter.{Limiter, empty_bucket}
use osint_platform_core.Security.RateLimiter.Window.{Call, IsHistory, in_window}
use osint_platform_core.Security.RateLimiter.Limits.{
  window_of, call, serve, allowed_calls, is_allowed-in_window, allowed-le-limit,
}

abbrev fresh_limiter : Limiter
fresh_limiter = record { default_limit = 100; window_seconds = 60; buckets = λ k. empty_bucket }

abbrev earlier : Call
earlier = record { now_ms = 1000; object_id = 7 }

abbrev later : Call
later = record { now_ms = 2000; object_id = 7 }

history : IsHistory (later ∷ earlier ∷ [])
history = ((omega arith, tt), (refl, tt), (tt, tt, tt))

allowed-le-limit_example :
    length (
      in_window
        (window_of fresh_limiter)
        3000
        (allowed_calls "10.0.0.1" 1 fresh_limiter (later ∷ earlier ∷ [])))
    ≤ 1
allowed-le-limit_example =
    allowed-le-limit "10.0.0.1" 1 fresh_limiter 3000 (later ∷ earlier ∷ []) refl history
      (omega arith, (omega arith, tt))

is_allowed-in_window_example :
    ((call "10.0.0.1" 1 later (serve "10.0.0.1" 1 fresh_limiter (earlier ∷ []))).0.allowed
      ≡ leb (length (in_window (window_of fresh_limiter) 2000 (later ∷ earlier ∷ []))) 1)
    × ((call "10.0.0.1" 1 later (serve "10.0.0.1" 1 fresh_limiter (earlier ∷ []))).0.remaining
        ≡ 1 - length (in_window (window_of fresh_limiter) 2000 (later ∷ earlier ∷ [])))
is_allowed-in_window_example =
    is_allowed-in_window "10.0.0.1" 1 fresh_limiter later (earlier ∷ []) refl history

abbrev ada : User
ada = record {
  id = 1;
  username = "ada";
  email = "ada@example.org";
  hashed_password = "h";
  role = "analyst";
  is_active = true;
  is_superuser = false;
  last_login = none;
}

abbrev ada_key : ApiKey
ada_key = record {
  id = 5;
  key_hash = "osint_00";
  name = "script";
  user_id = 1;
  permissions = [];
  is_active = true;
  expires_at = none;
  created_at = 10;
  last_used_at = none;
}

abbrev accounts : Db
accounts = record { users = ada ∷ []; api_keys = ada_key ∷ [] }

-- the digest of a text is taken to be the text
abbrev digest : String → String
digest s = s

abbrev access : Claims
access = record { sub = some "1"; type = some "access"; role = none; exp = 900 }

abbrev library : Externals
library = record {
  sha256 = digest;
  decode = λ now token. if str_eq token "token" then some access else none;
  encode = λ c. "token";
  hash_password = λ p. p;
  verify_password = λ p h. str_eq p h;
  parse_uuid = λ s. if str_eq s "1" then some 1 else none;
  show_uuid = λ id. "1";
}

abbrev bearer : Request
bearer = record { credentials = some "token"; api_key = none; touch_succeeds = true }

validate-revoke_example :
    validate_api_key digest 20 "osint_00" (revoke_api_key 5 accounts).1
    ≡ other_than 5 (validate_api_key digest 20 "osint_00" accounts)
validate-revoke_example = validate-revoke digest 20 5 "osint_00" accounts (tt, tt)

abbrev new_key : ApiKey
new_key = record {
  id = 6;
  key_hash = "osint_01";
  name = "cli";
  user_id = 1;
  permissions = [];
  is_active = true;
  expires_at = none;
  created_at = 20;
  last_used_at = none;
}

abbrev accounts_with_key : Db
accounts_with_key = record { users = ada ∷ []; api_keys = new_key ∷ ada_key ∷ [] }

creation :
    create_api_key digest 6 20 "01" 1 "cli" [] none accounts
    ≡ (ok (new_key, "osint_01"), accounts_with_key)
unfolding create_api_key
creation = refl

validate-create_example :
    (validate_api_key digest 30 "osint_01" accounts_with_key
      ≡ (if is_expired 30 none then none else some new_key))
    × (validate_api_key digest 30 "osint_00" accounts_with_key
        ≡ validate_api_key digest 30 "osint_00" accounts)
validate-create_example =
    validate-create digest 6 20 30 "01" "cli" 1 [] none accounts accounts_with_key new_key
      "osint_01" creation "osint_00" (str_neq "osint_00" "osint_01" refl)

authenticated : get_current_user library 20 bearer accounts ≡ (ok ada, accounts)
unfolding get_current_user
authenticated = refl

optional-of-current_example : get_optional_user library 20 bearer accounts ≡ (some ada, accounts)
optional-of-current_example =
    optional-of-current library 20 bearer accounts accounts ada authenticated

is_analyst : check_role ada viewer ≡ true
unfolding check_role role_from_string is_at_least
is_analyst = refl

viewers_read : has_permission viewer entity_read ≡ true
unfolding has_permission
viewers_read = refl
