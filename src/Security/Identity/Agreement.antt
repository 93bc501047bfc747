-- ===== src/Security/Identity/Agreement.antt =====
-- backend/security/rbac/permission_checker.py: `get_current_user` beside `get_optional_user`.
use osint_platform_core.Base.{
  ℕ, String, Bool, true, Option, none, some, ◌≡◌, refl, arith, Bool-cases, inl, inr, ◌==◌, ◌&&◌,
}
use osint_platform_core.Base.Rows.{find-passes}
use osint_platform_core.Base.Http.{Outcome, ok, http_exception, unhandled}
use osint_platform_core.Security.Accounts.{User, ApiKey, Db}
use osint_platform_core.Security.ApiKeys.{update_last_used}
use osint_platform_core.Security.Identity.{
  Claims, Externals, Request, get_current_user, get_optional_user, truthy, verify_token,
  get_user_by_id, found_or, user_of_subject, user_of_claims, user_of_key, user_of_header,
  user_of_bearer, subject, is_type,
}

-- Whoever the strict dependency resolves, the lenient one resolves too, with the same effect on the
-- database.
pub optional-of-current :
    (ext : Externals) (now : ℕ) (req : Request) (db db' : Db) (u : User)
    → get_current_user ext now req db ≡ (ok u, db')
    → get_optional_user ext now req db ≡ (some u, db')
unfolding get_current_user get_optional_user
optional-of-current ext now req db db' u h = ground arith

-- An active user, or status 401, and nothing else.
abbrev pub ActiveOr401 : Outcome User → Type 0
ActiveOr401 (ok u) = u.is_active ≡ true
ActiveOr401 (http_exception code detail) = code ≡ 401
ActiveOr401 (unhandled error) = ⊥

found_or-ActiveOr401 :
    (detail : String) (id : ℕ) (db : Db) (o : Option User)
    → o ≡ get_user_by_id id db
    → ActiveOr401 (found_or detail o db).0
unfolding found_or get_user_by_id
found_or-ActiveOr401 detail id db none e = refl
found_or-ActiveOr401 detail id db (some u) e =
    ground (arith, find-passes (λ x. x.id == id && x.is_active) db.users u)

module _ (ext : Externals) (now : ℕ) where
  subject-ActiveOr401 : (o : Option ℕ) (db : Db) → ActiveOr401 (user_of_subject ext now o db).0
  unfolding user_of_subject
  subject-ActiveOr401 none db = refl
  subject-ActiveOr401 (some id) db = found_or-ActiveOr401 _ id db (get_user_by_id id db) refl

  claims-ActiveOr401 : (o : Option Claims) (db : Db) → ActiveOr401 (user_of_claims ext now o db).0
  unfolding user_of_claims
  claims-ActiveOr401 none db = refl
  claims-ActiveOr401 (some c) db = elim (Bool-cases (is_type "access" c.type)) [
    | inl access ↦ rw access (subject-ActiveOr401 (subject ext now c) db)
    | inr other ↦ rw other
  ]

  key-ActiveOr401 :
      (b : Bool) (o : Option ApiKey) (db : Db) → ActiveOr401 (user_of_key ext now b o db).0
  unfolding user_of_key
  key-ActiveOr401 b none db = refl
  key-ActiveOr401 b (some k) db =
      let db' = update_last_used now b k.id db in
      found_or-ActiveOr401 _ k.user_id db' (get_user_by_id k.user_id db') refl

  header-ActiveOr401 :
      (req : Request) (o : Option String) (db : Db)
      → ActiveOr401 (user_of_header ext now req o db).0
  unfolding user_of_header
  header-ActiveOr401 req none db = refl
  header-ActiveOr401 req (some raw) db = key-ActiveOr401 req.touch_succeeds _ db

  bearer-ActiveOr401 :
      (req : Request) (o : Option String) (db : Db)
      → ActiveOr401 (user_of_bearer ext now req o db).0
  unfolding user_of_bearer
  bearer-ActiveOr401 req none db = header-ActiveOr401 req (truthy req.api_key) db
  bearer-ActiveOr401 req (some token) db = claims-ActiveOr401 (verify_token ext now token) db

-- Whatever the credentials, the dependency returns a user that is active, or raises an
-- `HTTPException` with status 401; no other exception leaves it.
pub get_current_user-ActiveOr401 :
    (ext : Externals) (now : ℕ) (req : Request) (db : Db)
    → ActiveOr401 (get_current_user ext now req db).0
unfolding get_current_user
get_current_user-ActiveOr401 ext now req db =
    bearer-ActiveOr401 ext now req (truthy req.credentials) db
