-- ===== src/Api/Notifications/Keys.antt =====
-- backend/notifications/vapid_keys.py: the keys stay the same.
use osint_platform_core.Base.{Bool, true, false, not, ◌&&◌, Bool-cases, inl, inr, ◌≡◌, refl}
use osint_platform_core.Base.Text.{is_empty}
use osint_platform_core.Api.Notifications.{
  VapidKeys, KeysFile, missing, unopenable, undecodable, malformed, stored, Environment,
  get_vapid_keys,
}

abbrev given : Environment → Bool
given env = not (is_empty env.vapid_private_key) && not (is_empty env.vapid_public_key)

abbrev pub is_openable : KeysFile → Bool
is_openable unopenable = false
is_openable _ = true

-- Where the file can be opened and written and the generation gives a private key, the answer of one
-- call is that of the next one, keys or an exception, whatever a new generation would give, and
-- whatever was in the file at first.
pub get_vapid_keys-stable :
    (env : Environment) (generated again : VapidKeys) (file : KeysFile)
    → is_openable file ≡ true
    → env.writable ≡ true
    → is_empty generated.private_key ≡ false
    → let (keys, file') = get_vapid_keys env generated file in
      get_vapid_keys env again file' ≡ (keys, file')
unfolding get_vapid_keys
get_vapid_keys-stable env generated again missing opens writes made =
    elim (Bool-cases (given env)) [
      | inl set ↦ rw set refl
      | inr unset ↦ rw (unset, made, writes) refl
    ]
get_vapid_keys-stable env generated again unopenable opens writes made = cc
get_vapid_keys-stable env generated again undecodable opens writes made =
    elim (Bool-cases (given env)) [ inl set ↦ rw set refl | inr unset ↦ rw unset refl ]
get_vapid_keys-stable env generated again malformed opens writes made =
    elim (Bool-cases (given env)) [
      | inl set ↦ rw set refl
      | inr unset ↦ rw (unset, made, writes) refl
    ]
get_vapid_keys-stable env generated again (stored keys) opens writes made =
    elim (Bool-cases (given env)) [ inl set ↦ rw set refl | inr unset ↦ rw unset refl ]
