-- ===== src/Security/ApiKeys/Unique.antt =====
-- backend/security/auth/api_key_manager.py: the unique column `key_hash`.
use osint_platform_core.Base.{
  ℕ, String, Bool, true, false, Option, none, some, List, [], ◌∷◌, ◌==◌, ◌≡◌, refl, arith, str_eq,
  any, All, ◌||◌, Bool-cases, inl, inr, if◌then◌else◌,
}
use osint_platform_core.Base.Rows.{find, update}
use osint_platform_core.Security.Accounts.{ApiKey, Db}
use osint_platform_core.Security.ApiKeys.{
  is_live, hash_api_key, generate_api_key, create_api_key, revoke_api_key, update_last_used,
}

abbrev pub Differs : String → List ApiKey → Type 0
Differs h = All (λ k. str_eq k.key_hash h ≡ false)

abbrev pub UniqueHashes : List ApiKey → Type 0
UniqueHashes [] = Unit
UniqueHashes (k ∷ ks) = Differs k.key_hash ks × UniqueHashes ks

pub Differs-any :
    (h : String) (id : ℕ) (ks : List ApiKey)
    → any (λ k. str_eq k.key_hash h || k.id == id) ks ≡ false
    → Differs h ks
Differs-any h id [] e = tt
Differs-any h id (k ∷ ks) e = (ground arith, Differs-any h id ks (ground arith))

-- An update that keeps the digests.
module _ (p : ApiKey → Bool) (f : ApiKey → ApiKey)
    (same : (k : ApiKey) → (f k).key_hash ≡ k.key_hash) where
  key_hash-if : (b : Bool) (k : ApiKey) → (if b then f k else k).key_hash ≡ k.key_hash
  key_hash-if true k = same k
  key_hash-if false k = refl

  pub Differs-update : (h : String) (ks : List ApiKey) → Differs h ks → Differs h (update p f ks)
  Differs-update h [] d = tt
  Differs-update h (k ∷ ks) d = (rw (key_hash-if (p k) k) d.0, Differs-update h ks d.1)

  pub UniqueHashes-update : (ks : List ApiKey) → UniqueHashes ks → UniqueHashes (update p f ks)
  UniqueHashes-update [] u = tt
  UniqueHashes-update (k ∷ ks) u =
      (rw (key_hash-if (p k) k) (Differs-update k.key_hash ks u.0), UniqueHashes-update ks u.1)

pub find-Differs : (h : String) (ks : List ApiKey) → Differs h ks → find (is_live h) ks ≡ none
find-Differs h [] d = refl
find-Differs h (k ∷ ks) d = ground (arith, find-Differs h ks d.1)

create-UniqueHashes :
    (sha256 : String → String) (id now : ℕ) (token name : String) (user_id : ℕ)
    → (permissions : List String) → (expires_at : Option ℕ) → (db : Db) → UniqueHashes db.api_keys
    → UniqueHashes
        (create_api_key sha256 id now token user_id name permissions expires_at db).1.api_keys
unfolding create_api_key
create-UniqueHashes sha256 id now token name user_id permissions expires_at db u =
    let h = hash_api_key sha256 (generate_api_key token) in
    elim (Bool-cases (any (λ k. str_eq k.key_hash h || k.id == id) db.api_keys)) [
      | inl taken ↦ rw taken u
      | inr free ↦ rw free (Differs-any h id db.api_keys free, u)
    ]

revoke-UniqueHashes :
    (id : ℕ) (db : Db) → UniqueHashes db.api_keys → UniqueHashes (revoke_api_key id db).1.api_keys
unfolding revoke_api_key
revoke-UniqueHashes id db u =
    UniqueHashes-update (λ k. k.id == id) (λ k. record k { is_active = false }) (λ k. refl)
      db.api_keys u

touch-UniqueHashes :
    (now : ℕ) (succeeds : Bool) (id : ℕ) (db : Db)
    → UniqueHashes db.api_keys
    → UniqueHashes (update_last_used now succeeds id db).api_keys
unfolding update_last_used
touch-UniqueHashes now false id db u = u
touch-UniqueHashes now true id db u =
    UniqueHashes-update (λ k. k.id == id) (λ k. record k { last_used_at = some now }) (λ k. refl)
      db.api_keys u

-- Creating, revoking and touching a key, whether or not the statement succeeds, keeps the digests
-- of the stored keys distinct.
pub operations-UniqueHashes :
    (sha256 : String → String) (id now : ℕ) (token name : String) (user_id : ℕ)
    → (permissions : List String) → (expires_at : Option ℕ) → (succeeds : Bool) → (db : Db)
    → UniqueHashes db.api_keys
    → UniqueHashes
        (create_api_key sha256 id now token user_id name permissions expires_at db).1.api_keys
      × UniqueHashes (revoke_api_key id db).1.api_keys
      × UniqueHashes (update_last_used now succeeds id db).api_keys
operations-UniqueHashes sha256 id now token name user_id permissions expires_at succeeds db u = (
  create-UniqueHashes sha256 id now token name user_id permissions expires_at db u,
  revoke-UniqueHashes id db u,
  touch-UniqueHashes now succeeds id db u,
)
