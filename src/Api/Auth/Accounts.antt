-- ===== src/Api/Auth/Accounts.antt =====
-- backend/api/v1/routes/auth.py: the accounts that registration makes.
use osint_platform_core.Base.{
  ℕ, String, Bool, true, false, some, List, [], ◌∷◌, ◌++◌, ◌≡◌, refl, arith, sym, ◌∙◌, str_eq,
  str_eq_iff, str_in, keep, length, Bool-cases, inl, inr, if◌then◌else◌, ltb, ◌==◌,
}
use osint_platform_core.Base.Apart.{AreApart, AreApart-append, AreApart-update}
use osint_platform_core.Base.Http.{ok, http_exception}
use osint_platform_core.Storage.Queries.{count_records, exists_by_field, create_record}
use osint_platform_core.Security.Accounts.{User, Db}
use osint_platform_core.Security.Identity.{Externals}
use osint_platform_core.Api.Auth.{
  Settings, UserCreate, public_roles, require_admin, new_user, register, login_as, login,
  touch_login,
}

abbrev pub same_username : User → User → Bool
same_username a b = str_eq a.username b.username

abbrev pub same_email : User → User → Bool
same_email a b = str_eq a.email b.email

-- The two unique columns of `users`.
pub record UniqueUsers (db : Db) : Type 0 where
  pub usernames : AreApart same_username db.users
  pub emails : AreApart same_email db.users

pub absent-keep : (p : User → Bool) (us : List User) → exists_by_field p us ≡ false → keep p us ≡ []
unfolding exists_by_field count_records
absent-keep p us h = nil (keep p us) h
  where
    nil : (xs : List User) → ltb 0 (length xs) ≡ false → xs ≡ []
    nil [] h = refl
    nil (x ∷ xs) h = absurd (ground arith)

module _ (ext : Externals) (settings : Settings) (now : ℕ) where
  register-UniqueUsers :
      (body : UserCreate) (id : ℕ) (db : Db)
      → UniqueUsers db
      → UniqueUsers (register ext settings now body id db).1
  unfolding register create_record
  register-UniqueUsers body id db u =
      elim (Bool-cases (exists_by_field (λ x. str_eq x.username body.username) db.users)) [
        | inl taken ↦ rw taken u
        | inr free ↦ elim (Bool-cases (exists_by_field (λ x. str_eq x.email body.email) db.users)) [
          | inl used ↦ rw (free, used) u
          | inr unused ↦
              rw (free, unused)
                (record {
                  usernames =
                      AreApart-append same_username (λ x. str_eq x.username body.username) _
                        (λ y h. h) db.users (absent-keep _ db.users free) u.usernames;
                  emails =
                      AreApart-append same_email (λ x. str_eq x.email body.email) _ (λ y h. h)
                        db.users (absent-keep _ db.users unused) u.emails;
                })
        ]
      ]

  touch-UniqueUsers :
      (id : ℕ) (db : Db) → UniqueUsers db → UniqueUsers (touch_login ext settings now id db)
  touch-UniqueUsers id db u = record {
    usernames =
        AreApart-update same_username (λ x. x.id == id) (λ x. record x { last_login = some now })
          (λ x y. refl) (λ x y. refl) db.users u.usernames;
    emails =
        AreApart-update same_email (λ x. x.id == id) (λ x. record x { last_login = some now })
          (λ x y. refl) (λ x y. refl) db.users u.emails;
  }

  login_as-UniqueUsers :
      (password : String) (us : List User) (db : Db)
      → UniqueUsers db
      → UniqueUsers (login_as ext settings now password us db).1
  unfolding login_as
  login_as-UniqueUsers password [] db u = u
  login_as-UniqueUsers password (x ∷ xs) db u =
      elim (Bool-cases (ext.verify_password password x.hashed_password)) [
        | inr wrong ↦ rw wrong u
        | inl right ↦ elim (Bool-cases x.is_active) [
          | inr disabled ↦ rw (right, disabled) u
          | inl active ↦ rw (right, active) (touch-UniqueUsers x.id db u)
        ]
      ]

  -- Registering and logging in, whatever they answer, keep the user names distinct and the e-mail
  -- addresses distinct.
  pub register-login-UniqueUsers :
      (body : UserCreate) (id : ℕ) (username password : String) (db : Db)
      → UniqueUsers db
      → UniqueUsers (register ext settings now body id db).1
        × UniqueUsers (login ext settings now username password db).1
  unfolding login
  register-login-UniqueUsers body id username password db u =
      (register-UniqueUsers body id db u, login_as-UniqueUsers password _ db u)

  -- What a registration that returned was, and its effect.
  pub register-inv :
      (body : UserCreate) (id : ℕ) (db : Db) (u : User)
      → (register ext settings now body id db).0 ≡ ok u
      → (u ≡ new_user ext settings now body id)
        × (keep (λ x. str_eq x.username body.username) db.users ≡ [])
        × ((register ext settings now body id db).1
            ≡ (record db { users = db.users ++ new_user ext settings now body id ∷ [] }))
  unfolding register create_record
  register-inv body id db u h =
      elim (Bool-cases (exists_by_field (λ x. str_eq x.username body.username) db.users)) [
        | inl taken ↦
            let k : http_exception 409 "Username already taken" ≡ ok u = rw taken at h in
            absurd (cc)
        | inr free ↦ elim (Bool-cases (exists_by_field (λ x. str_eq x.email body.email) db.users)) [
          | inl used ↦
              let k : http_exception 409 "Email already registered" ≡ ok u = rw (free, used) at h in
              absurd (cc)
          | inr unused ↦
              let k : ok (new_user ext settings now body id) ≡ ok u = rw (free, unused) at h in
              (cc, absent-keep _ db.users free, rw (free, unused) refl)
        ]
      ]

  picked_other :
      (b : Bool) (role : String)
      → str_eq role "admin" ≡ false
      → str_eq (if b then role else "viewer") "admin" ≡ false
  picked_other true role h = h
  picked_other false role h = refl

  -- The role that is stored is that of an administrator only if it was asked for.
  admin-role :
      (role : String)
      → str_eq (if str_in role public_roles then role else "viewer") "admin" ≡ str_eq role "admin"
  admin-role role = elim (Bool-cases (str_eq role "admin")) [
    | inl admin ↦ let e : role ≡ "admin" = (str_eq_iff role "admin").0 admin in rw e refl
    | inr other ↦ picked_other (str_in role public_roles) role other ∙ sym other
  ]

  -- Who registers becomes an administrator by asking for it: the account that was made passes
  -- `require_admin` exactly if the body of the request names the role `admin`.
  pub register-require_admin :
      (body : UserCreate) (id : ℕ) (db : Db) (u : User)
      → (register ext settings now body id db).0 ≡ ok u
      → (require_admin u db).0
        ≡ (if str_eq body.role "admin" then ok u else http_exception 403 "Admin access required")
  unfolding require_admin
  register-require_admin body id db u h =
      let (made, absent, effect) = register-inv body id db u h in
      rw made (
        rw (admin-role body.role) (elim (Bool-cases (str_eq body.role "admin")) [
          | inl admin ↦ rw admin refl
          | inr other ↦ rw other refl
        ]))
