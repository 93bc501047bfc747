-- ===== src/Security/Identity.antt =====
-- backend/security/rbac/permission_checker.py and the token check of
-- backend/security/auth/jwt_handler.py: who is calling, and what they may do.
pub mod Agreement
pub mod Enforcement
use Prim.Native.String.{◌++◌}
use osint_platform_core.Base.{
  ℕ, String, Bool, true, false, Option, none, some, ◌==◌, str_eq, not, if◌then◌else◌, ◌&&◌,
}
use osint_platform_core.Base.Rows.{find}
use osint_platform_core.Base.Http.{Outcome, ok, http_exception, Handler, pure, fail, ◌>>=◌}
use osint_platform_core.Security.Accounts.{User, ApiKey, Db}
use osint_platform_core.Security.ApiKeys.{validate_api_key, update_last_used}
use osint_platform_core.Security.Roles.{
  Role, role_value, Permission, permission_value, has_permission, is_at_least, role_from_string,
}

-- The claims of a decoded token that the platform reads. A claim may be missing.
pub record Claims : Type 0 where
  pub sub : Option String
  pub type : Option String
  pub role : Option String
  pub exp : ℕ

-- What the platform takes from `jose`, `passlib`, `hashlib` and `uuid`. `decode now token` is `none`
-- where `jwt.decode` raises at that time.
pub record Externals : Type 0 where
  pub sha256 : String → String
  pub decode : ℕ → String → Option Claims
  pub encode : Claims → String
  pub hash_password : String → String
  pub verify_password : String → String → Bool
  pub parse_uuid : String → Option ℕ
  pub show_uuid : ℕ → String

-- The parts of a request that authentication reads: the Bearer credentials, the `X-API-Key`
-- header, and whether the statement of `update_last_used` succeeds.
pub record Request : Type 0 where
  pub credentials : Option String
  pub api_key : Option String
  pub touch_succeeds : Bool

-- A text that is present and not empty, as `if x:` tests it.
abbrev pub truthy : Option String → Option String
truthy none = none
truthy (some s) = if str_eq s "" then none else some s

abbrev pub has_claims : Claims → Option Claims
has_claims c = elim c.sub [ none ↦ none | some _ ↦ elim c.type [ none ↦ none | some _ ↦ some c ] ]

abbrev pub is_type : String → Option String → Bool
is_type t none = false
is_type t (some s) = str_eq s t

pub get_user_by_id : ℕ → Db → Option User
get_user_by_id user_id db = find (λ u. u.id == user_id && u.is_active) db.users

found_or : String → Option User → Handler Db User
found_or detail none = fail 401 detail
found_or detail (some u) = pure u

module _ (ext : Externals) (now : ℕ) where
  pub verify_token : String → Option Claims
  verify_token token = elim (ext.decode now token) [ none ↦ none | some c ↦ has_claims c ]

  -- `uuid.UUID(payload["sub"])`; `none` is a `ValueError` or a `KeyError`.
  pub subject : Claims → Option ℕ
  subject c = elim c.sub [ none ↦ none | some s ↦ ext.parse_uuid s ]

  user_of_subject : Option ℕ → Handler Db User
  unfolding get_user_by_id found_or
  user_of_subject none db = fail 401 "Malformed token subject" db
  user_of_subject (some user_id) db =
      found_or "User not found or account deactivated" (get_user_by_id user_id db) db

  user_of_claims : Option Claims → Handler Db User
  unfolding user_of_subject subject
  user_of_claims none = fail 401 "Invalid or expired access token"
  user_of_claims (some c) =
      if is_type "access" c.type
      then user_of_subject (subject c)
      else fail 401 "Expected an access token, got a refresh token"

  user_of_key : Bool → Option ApiKey → Handler Db User
  unfolding get_user_by_id found_or
  user_of_key touch_succeeds none db = fail 401 "Invalid or expired API key" db
  user_of_key touch_succeeds (some k) db =
      let db' = update_last_used now touch_succeeds k.id db in
      found_or "API key owner not found or account deactivated" (get_user_by_id k.user_id db') db'

  user_of_header : Request → Option String → Handler Db User
  unfolding user_of_key
  user_of_header req none db = fail 401 "Authentication credentials were not provided" db
  user_of_header req (some raw) db =
      user_of_key req.touch_succeeds (validate_api_key ext.sha256 now raw db) db

  user_of_bearer : Request → Option String → Handler Db User
  unfolding user_of_claims user_of_header verify_token
  user_of_bearer req none = user_of_header req (truthy req.api_key)
  user_of_bearer req (some token) = user_of_claims (verify_token token)

  unfoldable pub get_current_user : Request → Handler Db User
  unfolding user_of_bearer
  get_current_user req = user_of_bearer req (truthy req.credentials)

  -- `get_optional_user` never raises: each step that fails leads to the next, or to `None`.
  optional_key : Request → Option ApiKey → Db → Option User × Db
  unfolding get_user_by_id
  optional_key req none db = (none, db)
  optional_key req (some k) db =
      let db' = update_last_used now req.touch_succeeds k.id db in
      (get_user_by_id k.user_id db', db')

  optional_header : Request → Option String → Db → Option User × Db
  unfolding optional_key
  optional_header req none db = (none, db)
  optional_header req (some raw) db = optional_key req (validate_api_key ext.sha256 now raw db) db

  optional_subject : Option ℕ → Db → Option User × Db
  unfolding get_user_by_id
  optional_subject none db = (none, db)
  optional_subject (some user_id) db = (get_user_by_id user_id db, db)

  optional_claims : Request → Option Claims → Db → Option User × Db
  unfolding optional_subject optional_header subject
  optional_claims req none db = optional_header req (truthy req.api_key) db
  optional_claims req (some c) db =
      if is_type "access" c.type
      then optional_subject (subject c) db
      else optional_header req (truthy req.api_key) db

  optional_bearer : Request → Option String → Db → Option User × Db
  unfolding optional_claims optional_header verify_token
  optional_bearer req none db = optional_header req (truthy req.api_key) db
  optional_bearer req (some token) db = optional_claims req (verify_token token) db

  unfoldable pub get_optional_user : Request → Db → Option User × Db
  unfolding optional_bearer
  get_optional_user req db = optional_bearer req (truthy req.credentials) db

-- `Role(current_user.role)`, and its `ValueError`.
with_role : User → Option Role → (Role → Handler Db User) → Handler Db User
with_role u none next = fail 403 ("Unknown role: " ++ u.role)
with_role u (some role) next = next role

unfoldable pub require_permission : Permission → User → Handler Db User
unfolding with_role
require_permission permission u = with_role u (role_from_string u.role) λ role.
    if has_permission role permission
    then pure u
    else fail 403 ("Permission denied: " ++ permission_value permission ++ " is required")

unfoldable pub require_role : Role → User → Handler Db User
unfolding with_role
require_role minimum u = with_role u (role_from_string u.role) λ role.
    if is_at_least role minimum
    then pure u
    else fail 403 (
        "Role '"
        ++ role_value minimum
        ++ "' or higher is required; you have '"
        ++ role_value role
        ++ "'")

unfoldable pub check_permission : User → Permission → Bool
check_permission u permission = elim (role_from_string u.role) [
  | none ↦ false
  | some role ↦ has_permission role permission
]

unfoldable pub check_role : User → Role → Bool
check_role u minimum = elim (role_from_string u.role) [
  | none ↦ false
  | some role ↦ is_at_least role minimum
]
