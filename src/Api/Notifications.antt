-- ===== src/Api/Notifications.antt =====
-- backend/api/v1/routes/notifications.py with backend/notifications: the subscriptions to push
-- messages, the broadcast, and the keys that it signs with. The log lines are left out.
pub mod Subscriptions
pub mod Keys
mod Examples
use osint_platform_core.Base.{
  ℕ, ◌+◌, String, Bool, true, false, not, Option, none, some, List, [], ◌∷◌, ◌++◌, str_eq, str_in,
  keep, map, if◌then◌else◌, ◌&&◌, is_nil,
}
use osint_platform_core.Base.Text.{is_empty}
use osint_platform_core.Base.Http.{Outcome, ok, http_exception, unhandled}

pub record PushSubscription : Type 0 where
  pub endpoint : String
  pub expiration_time : Option ℕ
  pub p256dh : String
  pub auth : String

-- `_subscriptions` of one process.
abbrev pub Subscriptions : Type 0
Subscriptions = List PushSubscription

unfoldable pub subscribe : PushSubscription → Subscriptions → Subscriptions
subscribe subscription subscriptions =
    if str_in subscription.endpoint (map (λ s. s.endpoint) subscriptions)
    then subscriptions
    else subscriptions ++ subscription ∷ []

unfoldable pub unsubscribe : PushSubscription → Subscriptions → Subscriptions
unsubscribe subscription subscriptions =
    keep (λ s. not (str_eq s.endpoint subscription.endpoint)) subscriptions

-- The two keys as texts; a missing one is the empty text.
pub record VapidKeys : Type 0 where
  pub private_key : String
  pub public_key : String

-- The file with the keys: missing, not open for reading, bytes that are no UTF-8, a text that is no JSON,
-- or keys.
pub data KeysFile : Type 0 where
  missing : KeysFile
  unopenable : KeysFile
  undecodable : KeysFile
  malformed : KeysFile
  stored : VapidKeys → KeysFile

-- The variables of the environment, and whether the file can be written.
pub record Environment : Type 0 where
  pub vapid_private_key : String
  pub vapid_public_key : String
  pub writable : Bool

abbrev written : Environment → VapidKeys → KeysFile → KeysFile
written env keys file =
    if is_empty keys.private_key then file else if env.writable then stored keys else file

-- A file that cannot be opened stays so when it is written; a UnicodeDecodeError is not caught.
abbrev load_or_generate :
    Environment → (generated : VapidKeys) → KeysFile → Outcome VapidKeys × KeysFile
load_or_generate env generated missing = (ok generated, written env generated missing)
load_or_generate env generated unopenable = (ok generated, unopenable)
load_or_generate env generated undecodable = (unhandled "UnicodeDecodeError", undecodable)
load_or_generate env generated malformed = (ok generated, written env generated malformed)
load_or_generate env generated (stored keys) = (ok keys, stored keys)

-- `generated` is what `_generate_vapid_keys` gives: a new pair, or two empty texts.
unfoldable pub get_vapid_keys :
    Environment → (generated : VapidKeys) → KeysFile → Outcome VapidKeys × KeysFile
get_vapid_keys env generated file =
    if not (is_empty env.vapid_private_key) && not (is_empty env.vapid_public_key)
    then (
      ok (record { private_key = env.vapid_private_key; public_key = env.vapid_public_key }),
      file,
    )
    else load_or_generate env generated file

abbrev with_keys : {A : Type 0} → Outcome VapidKeys → (VapidKeys → Outcome A) → Outcome A
with_keys (ok keys) answer = answer keys
with_keys (http_exception code detail) answer = http_exception code detail
with_keys (unhandled error) answer = unhandled error

abbrev unconfigured : {A : Type 0} → Outcome A
unconfigured = http_exception 503 "Push notifications are not configured on this server."

unfoldable pub get_vapid_public_key :
    Environment → (generated : VapidKeys) → KeysFile → Outcome String × KeysFile
unfolding get_vapid_keys
get_vapid_public_key env generated file =
    let (found, file') = get_vapid_keys env generated file in
    (
      with_keys found λ keys. if is_empty keys.public_key then unconfigured else ok keys.public_key,
      file',
    )

pub record Counts : Type 0 where
  pub sent : ℕ
  pub failed : ℕ

-- pywebpush, none where it is not installed: whether a message is delivered, or an exception is raised.
abbrev pub Webpush : Type 0
Webpush = Option ((private_key : String) → PushSubscription → Bool)

unfoldable pub send_push_notification : Webpush → (private_key : String) → PushSubscription → Bool
send_push_notification none private_key subscription = false
send_push_notification (some webpush) private_key subscription = webpush private_key subscription

unfoldable pub broadcast_loop : Webpush → (private_key : String) → Subscriptions → Counts → Counts
unfolding send_push_notification
broadcast_loop webpush private_key [] counts = counts
broadcast_loop webpush private_key (s ∷ rest) counts = broadcast_loop webpush private_key rest (
    if send_push_notification webpush private_key s
    then record counts { sent = counts.sent + 1 }
    else record counts { failed = counts.failed + 1 })

unfoldable pub broadcast_notification : Webpush → (private_key : String) → Subscriptions → Counts
unfolding broadcast_loop
broadcast_notification webpush private_key subscriptions =
    broadcast_loop webpush private_key subscriptions (record { sent = 0; failed = 0 })

unfoldable pub send_notification :
    Webpush
    → Environment
    → (generated : VapidKeys) → KeysFile
    → Subscriptions
    → Outcome Counts × KeysFile
unfolding get_vapid_keys broadcast_notification
send_notification webpush env generated file subscriptions =
    let (found, file') = get_vapid_keys env generated file in
    if is_nil subscriptions then (ok (record { sent = 0; failed = 0 }), file) else (
      with_keys found λ keys.
          if is_empty keys.private_key
          then unconfigured
          else ok (broadcast_notification webpush keys.private_key subscriptions),
      file',
    )
