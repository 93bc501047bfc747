-- ===== src/Security/ApiKeys/Lifecycle.antt =====
-- backend/security/auth/api_key_manager.py: a key from its creation to its revocation.
use osint_platform_core.Base.{
  ℕ, String, true, false, Option, none, some, List, [], ◌∷◌, ◌==◌, ◌≡◌, refl, arith, ◌∙◌, ap, ◌≢◌,
  ◌++◌, str_eq, str_eq_iff, str_eq_refl, Bool-cases, inl, inr, if◌then◌else◌,
}
use mathlib.Core.Path.{subst}
use osint_platform_core.Base.Http.{ok}
use osint_platform_core.Base.Rows.{find, find-append, update}
use osint_platform_core.Security.Accounts.{ApiKey, Db}
use osint_platform_core.Security.ApiKeys.{
  is_live, hash_api_key, check_expiry, validate_api_key, revoke_api_key, create_api_key, is_expired,
}
use osint_platform_core.Security.ApiKeys.Unique.{
  Differs, UniqueHashes, Differs-update, find-Differs,
}

-- The key that was found, unless it is the one that is being revoked.
abbrev pub other_than : ℕ → Option ApiKey → Option ApiKey
other_than id none = none
other_than id (some k) = if k.id == id then none else some k

abbrev deactivate : ApiKey → ApiKey
deactivate k = record k { is_active = false }

find-revoked :
    (h : String) (id : ℕ) (ks : List ApiKey)
    → UniqueHashes ks
    → find (is_live h) (update (λ k. k.id == id) deactivate ks)
      ≡ other_than id (find (is_live h) ks)
find-revoked h id [] u = refl
find-revoked h id (k ∷ ks) u = elim (Bool-cases (str_eq k.key_hash h)) [
  | inl same ↦
      let e = (str_eq_iff k.key_hash h).0 same in
      let gone = subst (λ x. Differs x ks) e u.0 in
      ground (
        arith,
        find-revoked h id ks u.1,
        find-Differs h ks gone,
        find-Differs h _ (Differs-update (λ j. j.id == id) deactivate (λ j. refl) h ks gone),
      )
  | inr other ↦ ground (arith, find-revoked h id ks u.1)
]

other_than-check :
    (now id : ℕ) (o : Option ApiKey)
    → check_expiry now (other_than id o) ≡ other_than id (check_expiry now o)
unfolding check_expiry
other_than-check now id none = refl
other_than-check now id (some k) = ground arith

-- After a key is revoked, a raw key validates to what it validated to before, but never to the
-- revoked key. This takes that the digests of the stored keys are distinct.
pub validate-revoke :
    (sha256 : String → String) (now id : ℕ) (raw_key : String) (db : Db)
    → UniqueHashes db.api_keys
    → validate_api_key sha256 now raw_key (revoke_api_key id db).1
      ≡ other_than id (validate_api_key sha256 now raw_key db)
unfolding validate_api_key revoke_api_key
validate-revoke sha256 now id raw_key db u =
    ap (check_expiry now) (find-revoked (hash_api_key sha256 raw_key) id db.api_keys u)
    ∙ other_than-check now id (find (is_live (hash_api_key sha256 raw_key)) db.api_keys)

record Created (sha256 : String → String) (expires_at : Option ℕ) (key : ApiKey) (raw : String)
    (db db' : Db) : Type 0 where
  hashed : key.key_hash ≡ sha256 raw
  active : key.is_active ≡ true
  expiry : key.expires_at ≡ expires_at
  stored : db'.api_keys ≡ key ∷ db.api_keys

create-Created :
    (sha256 : String → String) (id created : ℕ) (token name : String) (user_id : ℕ)
    → (permissions : List String) → (expires_at : Option ℕ) → (db db' : Db) → (key : ApiKey)
    → (raw : String)
    → create_api_key sha256 id created token user_id name permissions expires_at db
      ≡ (ok (key, raw), db')
    → Created sha256 expires_at key raw db db'
unfolding create_api_key
create-Created sha256 id created token name user_id permissions expires_at db db' key raw h =
    ground arith

validate_self :
    (sha256 : String → String) (now : ℕ) (expires_at : Option ℕ) (key : ApiKey) (raw : String)
    → (db db' : Db) → Created sha256 expires_at key raw db db'
    → validate_api_key sha256 now raw db' ≡ (if is_expired now expires_at then none else some key)
unfolding validate_api_key
validate_self sha256 now expires_at key raw db db' c =
    rw c.stored (ground (arith, c.hashed, c.active, c.expiry, str_eq_iff key.key_hash (sha256 raw)))

validate-other :
    (sha256 : String → String) (now : ℕ) (expires_at : Option ℕ) (key : ApiKey) (raw : String)
    → (db db' : Db) → Created sha256 expires_at key raw db db'
    → (other : String) → sha256 other ≢ sha256 raw
    → validate_api_key sha256 now other db' ≡ validate_api_key sha256 now other db
unfolding validate_api_key
validate-other sha256 now expires_at key raw db db' c other ne =
    rw c.stored (ground (arith, c.hashed, str_eq_iff key.key_hash (sha256 other)))

-- A key that was just created validates at its raw text, to the stored key, until it expires; and
-- every other raw text, with another digest, validates to what it did before.
pub validate-create :
    (sha256 : String → String) (id created now : ℕ) (token name : String) (user_id : ℕ)
    → (permissions : List String) → (expires_at : Option ℕ) → (db db' : Db) → (key : ApiKey)
    → (raw : String)
    → create_api_key sha256 id created token user_id name permissions expires_at db
      ≡ (ok (key, raw), db')
    → (other : String) → sha256 other ≢ sha256 raw
    → (validate_api_key sha256 now raw db' ≡ (if is_expired now expires_at then none else some key))
      × (validate_api_key sha256 now other db' ≡ validate_api_key sha256 now other db)
validate-create sha256 id created now token name user_id permissions expires_at db db' key raw h
      other ne =
    let c =
      create-Created sha256 id created token name user_id permissions expires_at db db' key raw h in
    (
      validate_self sha256 now expires_at key raw db db' c,
      validate-other sha256 now expires_at key raw db db' c other ne,
    )

-- An active key with a digest that no other key has is what its raw text validates to.
pub validate-append :
    (sha256 : String → String) (now : ℕ) (raw : String) (k : ApiKey) (db : Db)
    → Differs (sha256 raw) db.api_keys
    → k.key_hash ≡ sha256 raw
    → k.is_active ≡ true
    → validate_api_key sha256 now raw (record db { api_keys = db.api_keys ++ k ∷ [] })
      ≡ (if is_expired now k.expires_at then none else some k)
unfolding validate_api_key hash_api_key check_expiry
validate-append sha256 now raw k db differs hashed active =
    rw (find-append (is_live (sha256 raw)) db.api_keys (k ∷ [])) (
      rw (find-Differs (sha256 raw) db.api_keys differs)
        (rw (hashed, active) (rw (str_eq_refl (sha256 raw)) refl)))
