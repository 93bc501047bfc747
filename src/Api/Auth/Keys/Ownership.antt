-- ===== src/Api/Auth/Keys/Ownership.antt =====
-- backend/api/v1/routes/auth.py: the routes for keys beside the validation of a key.
use osint_platform_core.Base.{
  ℕ, String, Bool, false, Option, none, some, ◌≡◌, refl, ap, sym, ◌==◌, any, str_eq, Bool-cases,
  inl, inr, if◌then◌else◌, ◌||◌,
}
use osint_platform_core.Base.Http.{ok, unhandled}
use osint_platform_core.Storage.Queries.{get_by_id, create_record}
use osint_platform_core.Security.Accounts.{User, ApiKey, Db}
use osint_platform_core.Security.ApiKeys.{
  is_expired, validate_api_key, revoke_api_key as revoke_key,
}
use osint_platform_core.Security.ApiKeys.Unique.{UniqueHashes, Differs-any}
use osint_platform_core.Security.ApiKeys.Lifecycle.{other_than, validate-revoke, validate-append}
use osint_platform_core.Api.Auth.Keys.{
  ApiKeyCreate, ApiKeyResponse, raw_key_of, expiry, key_of, response, create_api_key, revoke_found,
  revoke_api_key,
}

abbrev owned : User → Option ApiKey → Bool
owned user none = false
owned user (some k) = k.user_id == user.id

-- Whether the user owns the key of the identifier.
abbrev pub owns : User → (key_id : ℕ) → Db → Bool
owns user key_id db = owned user (get_by_id (λ k. k.id) key_id db.api_keys)

found-revoked :
    (key_id : ℕ) (user : User) (o : Option ApiKey) (db : Db)
    → (revoke_found key_id user o db).1 ≡ (if owned user o then (revoke_key key_id db).1 else db)
unfolding revoke_found revoke_key
found-revoked key_id user none db = refl
found-revoked key_id user (some k) db = elim (Bool-cases (k.user_id == user.id)) [
  | inl own ↦ rw own refl
  | inr foreign ↦ rw foreign refl
]

revoked :
    (key_id : ℕ) (user : User) (db : Db)
    → (revoke_api_key key_id user db).1
      ≡ (if owns user key_id db then (revoke_key key_id db).1 else db)
unfolding revoke_api_key
revoked key_id user db = found-revoked key_id user (get_by_id (λ k. k.id) key_id db.api_keys) db

-- If the user owns the key, the route has the effect that no raw key validates to it any more, and
-- that every other key is validated as before; if not, it changes nothing for any raw key.
-- This takes that the digests of the stored keys are distinct.
pub validate-revoke_api_key :
    (sha256 : String → String) (now key_id : ℕ) (user : User) (raw_key : String) (db : Db)
    → UniqueHashes db.api_keys
    → validate_api_key sha256 now raw_key (revoke_api_key key_id user db).1 ≡ (
        if owns user key_id db
        then other_than key_id (validate_api_key sha256 now raw_key db)
        else validate_api_key sha256 now raw_key db)
validate-revoke_api_key sha256 now key_id user raw_key db u =
    rw (revoked key_id user db) (elim (Bool-cases (owns user key_id db)) [
      | inl own ↦ rw own (validate-revoke sha256 now key_id raw_key db u)
      | inr foreign ↦ rw foreign refl
    ])

-- A key that the route created is answered with its raw text, and this text validates to the new
-- key of the user until the key expires.
pub validate-create_api_key :
    (sha256 : String → String) (now later id : ℕ) (token : String) (body : ApiKeyCreate)
    (user : User) (db : Db) (r : ApiKeyResponse)
    → (create_api_key sha256 now id token body user db).0 ≡ ok r
    → (r.key ≡ some (raw_key_of token))
      × (validate_api_key sha256 later
            (raw_key_of token)
            (create_api_key sha256 now id token body user db).1
          ≡ (if is_expired later (expiry now body.expires_in_days)
              then none
              else some (key_of sha256 now id token body user)))
unfolding create_api_key create_record
validate-create_api_key sha256 now later id token body user db r h =
    let k = key_of sha256 now id token body user in
    elim (Bool-cases (any (λ j. str_eq j.key_hash k.key_hash || j.id == id) db.api_keys)) [
      | inl taken ↦ let e : unhandled "IntegrityError" ≡ ok r = rw taken at h in absurd (cc)
      | inr free ↦
          let e : ok (response k (some (raw_key_of token))) ≡ ok r = rw free at h in
          let f : response k (some (raw_key_of token)) ≡ r = cc in
          (
            ap (λ x. x.key) (sym f),
            rw free (
                validate-append sha256 later (raw_key_of token) k db
                  (Differs-any k.key_hash id db.api_keys free) refl refl),
          )
    ]
