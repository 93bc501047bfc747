-- ===== src/Api/Auth/Tokens.antt =====
-- backend/api/v1/routes/auth.py: the tokens, from a registration to an authenticated request.
use mathlib.Core.Option
use osint_platform_core.Base.{
  ℕ, ◌+◌, ◌*◌, ◌≤◌, true, false, some, List, [], ◌∷◌, ◌++◌, ◌≡◌, refl, ap, ◌∙◌, str_eq, str_eq_refl,
  take, keep, keep-append, All, ◌==◌, ==_refl,
}
use osint_platform_core.Base.Rows.{find, find-none, find-append, find-update, update}
use osint_platform_core.Base.Http.{ok, http_exception}
use osint_platform_core.Storage.Queries.{get_all, get_by_id}
use osint_platform_core.Security.Accounts.{User, Db}
use osint_platform_core.Security.Identity.{Externals}
use osint_platform_core.Api.Auth.{
  Settings, UserCreate, new_user, register, login_as, login, tokens, access_claims, refresh_claims,
  get_current_user, user_of_payload, user_of_id, active_or_401, refresh_claim, refresh,
}
use osint_platform_core.Api.Auth.Accounts.{register-inv}

module _ (ext : Externals) (settings : Settings) (now : ℕ) where
  -- The two kinds of tokens do not stand in for each other, whatever the user: as a credential a
  -- refresh token is refused with status 401, and so is an access token when it is exchanged, at any
  -- time at which the library decodes the token to the claims that it was made of.
  pub tokens_are_not_interchangeable :
      (later : ℕ) (u : User) (db : Db)
      → ext.decode later (ext.encode (refresh_claims ext settings now u))
        ≡ some (refresh_claims ext settings now u)
      → ext.decode later (ext.encode (access_claims ext settings now u))
        ≡ some (access_claims ext settings now u)
      → (get_current_user ext settings later (some (tokens ext settings now u).refresh_token) db
          ≡ (http_exception 401 "Expected an access token", db))
        × (refresh ext settings later (tokens ext settings now u).access_token db
            ≡ (http_exception 401 "Token is not a refresh token", db))
  unfolding get_current_user user_of_payload refresh refresh_claim
  tokens_are_not_interchangeable later u db h k = (rw h refl, rw k refl)

  -- the user as `login` leaves it
  abbrev pub logged_in : User → User
  logged_in u = record u { last_login = some now }

  abbrev after_login : User → List User → List User
  after_login u us = update (λ x. x.id == u.id) logged_in (us ++ u ∷ [])

  found_after_login :
      (u : User) (us : List User)
      → All (λ x. (x.id == u.id) ≡ false) us
      → get_by_id (λ x. x.id) u.id (after_login u us) ≡ some (logged_in u)
  unfolding get_by_id
  found_after_login u us others =
      let there : find (λ x. x.id == u.id) (us ++ u ∷ []) ≡ some u =
        find-append (λ x. x.id == u.id) us (u ∷ [])
        ∙ rw (find-none (λ x. x.id == u.id) us others) (rw (==_refl u.id) refl) in
      find-update (λ x. x.id == u.id) logged_in (λ x. refl) (us ++ u ∷ [])
      ∙ ap (Option.map logged_in) there

  -- A user that is found by the subject of its access token is the current user.
  current_user-found :
      (later : ℕ) (u found : User) (db : Db)
      → ext.decode later (ext.encode (access_claims ext settings now u))
        ≡ some (access_claims ext settings now u)
      → ext.parse_uuid (ext.show_uuid u.id) ≡ some u.id
      → get_by_id (λ x. x.id) u.id db.users ≡ some found
      → found.is_active ≡ true
      → get_current_user ext settings later
          (some (ext.encode (access_claims ext settings now u)))
          db
        ≡ (ok found, db)
  unfolding get_current_user user_of_payload user_of_id active_or_401
  current_user-found later u found db decoded parsed h active =
      rw decoded (rw parsed (rw h (rw active refl)))

  -- the users with the name of one who has just registered
  named :
      (body : UserCreate) (id : ℕ) (us : List User)
      → keep (λ x. str_eq x.username body.username) us ≡ []
      → get_all 0 100
          (λ x. str_eq x.username body.username)
          (us ++ new_user ext settings now body id ∷ [])
        ≡ new_user ext settings now body id ∷ []
  unfolding get_all
  named body id us absent =
      let e : keep (λ x. str_eq x.username body.username)
            (us ++ new_user ext settings now body id ∷ [])
          ≡ new_user ext settings now body id ∷ [] =
        keep-append (λ x. str_eq x.username body.username) us _
        ∙ rw absent (rw (str_eq_refl body.username) refl) in
      ap (take 100) e

  -- From a registration to a request: who registered, and logs in with that name and password,
  -- gets the pair of tokens of the account; and until the access token expires, it identifies
  -- the account, as the login left it. This takes that the password matches its own hash, that the
  -- UUID reads back, that the token decodes to its claims until it expires, and that the identifier
  -- of the new account was not in use.
  pub register-login-get_current_user :
      (body : UserCreate) (id later : ℕ) (db : Db) (u : User)
      → All (λ x. (x.id == id) ≡ false) db.users
      → ext.verify_password body.password (ext.hash_password body.password) ≡ true
      → ext.parse_uuid (ext.show_uuid id) ≡ some id
      → (later ≤ now + settings.jwt_expire_minutes * 60
          → ext.decode later (ext.encode (access_claims ext settings now u))
            ≡ some (access_claims ext settings now u))
      → later ≤ now + settings.jwt_expire_minutes * 60
      → (register ext settings now body id db).0 ≡ ok u
      → let (answer, after) =
          login ext settings now body.username body.password
            (register ext settings now body id db).1 in
        (answer ≡ ok (tokens ext settings now u))
        × (get_current_user ext settings later (some (tokens ext settings now u).access_token) after
            ≡ (ok (logged_in u), after))
  unfolding login login_as
  register-login-get_current_user body id later db u fresh verified parsed decoded early h =
      let (made, absent, effect) = register-inv ext settings now body id db u h in
      let v : User = new_user ext settings now body id in
      let decoded-v : ext.decode later (ext.encode (access_claims ext settings now v))
          ≡ some (access_claims ext settings now v) =
        rw made at (decoded early) in
      rw (effect, made)
        (rw (named body id db.users absent) (
          rw verified (
            refl,
            current_user-found later v (logged_in v) _ decoded-v parsed
                (found_after_login v db.users fresh) refl,
          )))
