-- ===== src/Api/Notifications/Examples.antt =====
-- The push messages at concrete inputs.
use osint_platform_core.Base.{String, true, none, some, [], ◌∷◌, str_eq, ◌≡◌, refl}
use osint_platform_core.Base.Http.{ok}
use osint_platform_core.Api.Notifications.{
  PushSubscription, Subscriptions, VapidKeys, missing, stored, Environment, get_vapid_keys, Counts,
  Webpush, send_notification,
}
use osint_platform_core.Api.Notifications.Keys.{get_vapid_keys-stable}

abbrev browser : String → PushSubscription
browser endpoint = record { endpoint = endpoint; expiration_time = none; p256dh = "k"; auth = "a" }

abbrev two : Subscriptions
two = browser "https://p.org/1" ∷ browser "https://p.org/2" ∷ []

abbrev env : Environment
env = record { vapid_private_key = ""; vapid_public_key = ""; writable = true }

abbrev pair : VapidKeys
pair = record { private_key = "d"; public_key = "q" }

abbrev other_pair : VapidKeys
other_pair = record { private_key = "e"; public_key = "r" }

get_vapid_keys-stable_example :
    let (keys, file') = get_vapid_keys env pair missing in
    get_vapid_keys env other_pair file' ≡ (keys, file')
get_vapid_keys-stable_example = get_vapid_keys-stable env pair other_pair missing refl refl refl

-- One of the two endpoints is gone.
abbrev webpush : Webpush
webpush = some (λ private_key s. str_eq s.endpoint "https://p.org/1")

abbrev counts : Counts
counts = record { sent = 1; failed = 1 }

answered : (send_notification webpush env pair (stored pair) two).0 ≡ ok counts
unfolding send_notification
answered = refl
