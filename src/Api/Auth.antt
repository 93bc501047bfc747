-- ===== src/Api/Auth.antt =====
-- backend/api/v1/routes/auth.py: registration, login, refresh, and the current user.
pub mod Accounts
pub mod Tokens
pub mod Keys
mod Examples
use osint_platform_core.Base.{
  ℕ, ◌+◌, ◌*◌, String, Bool, true, false, Option, none, some, List, [], ◌∷◌, ◌==◌, str_eq, str_in,
  any, not, if◌then◌else◌, ◌&&◌, ◌||◌,
}
use osint_platform_core.Base.Rows.{update}
use osint_platform_core.Base.Http.{
  Outcome, ok, http_exception, unhandled, Handler, pure, fail, crash, with_session,
}
use osint_platform_core.Storage.Queries.{get_all, exists_by_field, create_record, get_by_id}
use osint_platform_core.Security.Accounts.{User, ApiKey, Db}
use osint_platform_core.Security.Identity.{Claims, Externals, is_type}

-- The part of the settings that the router reads.
pub record Settings : Type 0 where
  pub jwt_expire_minutes : ℕ
  pub jwt_refresh_expire_days : ℕ

pub record UserCreate : Type 0 where
  pub username : String
  pub email : String
  pub password : String
  pub role : String

pub record TokenResponse : Type 0 where
  pub access_token : String
  pub refresh_token : String
  pub token_type : String
  pub expires_in : ℕ

abbrev pub public_roles : List String
public_roles = "viewer" ∷ "analyst" ∷ "admin" ∷ []

-- `payload.get("type", "access")`
abbrev or_access : Option String → String
or_access none = "access"
or_access (some t) = t

-- `uuid.UUID` of a claim; a missing `sub` is the empty text.
abbrev pub or_blank : Option String → String
or_blank none = ""
or_blank (some s) = s

active_or_401 : String → Option User → Handler Db User
active_or_401 detail none = fail 401 detail
active_or_401 detail (some u) = if u.is_active then pure u else fail 401 detail

user_of_id : String → Option ℕ → Handler Db User
unfolding active_or_401 get_by_id
user_of_id detail none db = crash "ValueError" db
user_of_id detail (some user_id) db =
    active_or_401 detail (get_by_id (λ u. u.id) user_id db.users) db

unfoldable pub require_admin : User → Handler Db User
require_admin u =
    if not u.is_superuser && not (str_eq u.role "admin")
    then fail 403 "Admin access required"
    else pure u

module _ (ext : Externals) (settings : Settings) (now : ℕ) where
  user_of_payload : Option Claims → Handler Db User
  unfolding user_of_id
  user_of_payload none = fail 401 "Invalid token"
  user_of_payload (some c) =
      if str_eq (or_access c.type) "access"
      then user_of_id "User not found or inactive" (ext.parse_uuid (or_blank c.sub))
      else fail 401 "Expected an access token"

  unfoldable pub get_current_user : (credentials : Option String) → Handler Db User
  unfolding user_of_payload
  get_current_user none = fail 401 "Missing authentication credentials"
  get_current_user (some token) = user_of_payload (ext.decode now token)

  -- The row that `register` inserts; `id` is what the server generates.
  abbrev pub new_user : UserCreate → (id : ℕ) → User
  new_user body id = record {
    id = id;
    username = body.username;
    email = body.email;
    hashed_password = ext.hash_password body.password;
    role = if str_in body.role public_roles then body.role else "viewer";
    is_active = true;
    is_superuser = false;
    last_login = none;
  }

  unfoldable pub register : UserCreate → (id : ℕ) → Handler Db User
  unfolding exists_by_field create_record
  register body id db =
      if exists_by_field (λ u. str_eq u.username body.username) db.users
      then fail 409 "Username already taken" db
      else if exists_by_field (λ u. str_eq u.email body.email) db.users
      then fail 409 "Email already registered" db
      else (ok (new_user body id), record db { users = create_record (new_user body id) db.users })

  abbrev pub access_claims : User → Claims
  access_claims u = record {
    sub = some (ext.show_uuid u.id);
    type = some "access";
    role = some u.role;
    exp = now + settings.jwt_expire_minutes * 60;
  }

  abbrev pub refresh_claims : User → Claims
  refresh_claims u = record {
    sub = some (ext.show_uuid u.id);
    type = some "refresh";
    role = none;
    exp = now + settings.jwt_refresh_expire_days * 86400;
  }

  -- the pair of tokens that `login` and `refresh` create
  abbrev pub tokens : User → TokenResponse
  tokens u = record {
    access_token = ext.encode (access_claims u);
    refresh_token = ext.encode (refresh_claims u);
    token_type = "bearer";
    expires_in = settings.jwt_expire_minutes * 60;
  }

  abbrev pub touch_login : ℕ → Db → Db
  touch_login user_id db = record db {
    users = update (λ u. u.id == user_id) (λ u. record u { last_login = some now }) db.users;
  }

  -- from the users with the name
  login_as : (password : String) → List User → Handler Db TokenResponse
  login_as password [] db = fail 401 "Invalid credentials" db
  login_as password (u ∷ us) db =
      if not (ext.verify_password password u.hashed_password)
      then fail 401 "Invalid credentials" db
      else if not u.is_active
      then fail 403 "Account disabled" db
      else (ok (tokens u), touch_login u.id db)

  unfoldable pub login : (username password : String) → Handler Db TokenResponse
  unfolding login_as get_all
  login username password db =
      login_as password (get_all 0 100 (λ u. str_eq u.username username) db.users) db

  refresh_as : Outcome User × Db → Outcome TokenResponse × Db
  refresh_as (ok u, db) = (ok (tokens u), db)
  refresh_as (http_exception code detail, db) = (http_exception code detail, db)
  refresh_as (unhandled error, db) = (unhandled error, db)

  -- a `sub` that is missing is a `KeyError`
  refresh_claim : Option Claims → Handler Db TokenResponse
  unfolding user_of_id refresh_as
  refresh_claim none db = fail 401 "Invalid refresh token" db
  refresh_claim (some c) db =
      if not (is_type "refresh" c.type)
      then fail 401 "Token is not a refresh token" db
      else elim c.sub [
        | none ↦ crash "KeyError" db
        | some s ↦ refresh_as (user_of_id "User not found or inactive" (ext.parse_uuid s) db)
      ]

  unfoldable pub refresh : (refresh_token : String) → Handler Db TokenResponse
  unfolding refresh_claim
  refresh refresh_token = refresh_claim (ext.decode now refresh_token)
