-- ===== src/Api/Notifications/Subscriptions.antt =====
-- backend/api/v1/routes/notifications.py: the store of subscriptions, and the counts of a broadcast.
use osint_platform_core.Base.{
  ◌+◌, String, Bool, true, false, not, [], ◌∷◌, if◌then◌else◌, ◌++◌, str_eq, str_eq_refl, str_in,
  keep, map, length, All, Bool-cases, inl, inr, ◌≡◌, refl, ap, arith,
}
use osint_platform_core.Base.Apart.{AreApart, AreApart_snoc, AreApart-keep}
use osint_platform_core.Base.Http.{Outcome, ok, http_exception, unhandled}
use osint_platform_core.Base.Text.{is_empty}
use osint_platform_core.Api.Notifications.{
  PushSubscription, Subscriptions, subscribe, unsubscribe, Webpush, Counts, send_push_notification,
  broadcast_loop, broadcast_notification, send_notification, Environment, VapidKeys, KeysFile,
  get_vapid_keys, with_keys, unconfigured,
}

abbrev pub same_endpoint : PushSubscription → PushSubscription → Bool
same_endpoint s t = str_eq s.endpoint t.endpoint

others :
    (endpoint : String) (ss : Subscriptions)
    → str_in endpoint (map (λ s. s.endpoint) ss) ≡ false
    → All (λ s. str_eq s.endpoint endpoint ≡ false) ss
others endpoint [] h = tt
others endpoint (s ∷ ss) h = (ground (arith, h), others endpoint ss (ground (arith, h)))

is_there :
    (t : PushSubscription) (ss : Subscriptions)
    → str_in t.endpoint (map (λ s. s.endpoint) (ss ++ t ∷ [])) ≡ true
is_there t [] = rw (str_eq_refl t.endpoint) refl
is_there t (s ∷ ss) = ground (arith, is_there t ss)

keep_others :
    (t : PushSubscription) (ss : Subscriptions)
    → All (λ s. str_eq s.endpoint t.endpoint ≡ false) ss
    → keep (λ s. not (str_eq s.endpoint t.endpoint)) (ss ++ t ∷ []) ≡ ss
keep_others t [] h = rw (str_eq_refl t.endpoint) refl
keep_others t (s ∷ ss) h = rw h.0 (ap (λ xs. s ∷ xs) (keep_others t ss h.1))

-- Subscribing and unsubscribing keep every endpoint listed once, and subscribing twice is subscribing
-- once.
pub subscriptions-AreApart :
    (t : PushSubscription) (ss : Subscriptions)
    → AreApart same_endpoint ss
    → AreApart same_endpoint (subscribe t ss)
      × AreApart same_endpoint (unsubscribe t ss)
      × (subscribe t (subscribe t ss) ≡ subscribe t ss)
unfolding subscribe unsubscribe
subscriptions-AreApart t ss a =
    let left = AreApart-keep same_endpoint (λ s. not (str_eq s.endpoint t.endpoint)) ss a in
    elim (Bool-cases (str_in t.endpoint (map (λ s. s.endpoint) ss))) [
      | inl there ↦ rw (there, there) (a, left, refl)
      | inr new ↦ rw new (
        AreApart_snoc same_endpoint t ss (others t.endpoint ss new) a,
        left,
        rw (is_there t ss) refl,
      )
    ]

-- A subscription of a new endpoint that is withdrawn leaves the store as it was.
pub unsubscribe-subscribe :
    (t : PushSubscription) (ss : Subscriptions)
    → str_in t.endpoint (map (λ s. s.endpoint) ss) ≡ false
    → unsubscribe t (subscribe t ss) ≡ ss
unfolding subscribe unsubscribe
unsubscribe-subscribe t ss new = rw new (keep_others t ss (others t.endpoint ss new))

broadcast_loop-counts :
    (webpush : Webpush) (private_key : String) (ss : Subscriptions) (c : Counts)
    → let r = broadcast_loop webpush private_key ss c in
      (r.sent ≡ c.sent + length (keep (send_push_notification webpush private_key) ss))
      × (r.sent + r.failed ≡ c.sent + c.failed + length ss)
unfolding broadcast_loop
broadcast_loop-counts webpush private_key [] c = (omega arith, omega arith)
broadcast_loop-counts webpush private_key (s ∷ ss) c =
    elim (Bool-cases (send_push_notification webpush private_key s)) [
      | inl sent ↦
          let (delivered, all) =
            broadcast_loop-counts webpush private_key ss (record c { sent = c.sent + 1 }) in
          let step : broadcast_loop webpush private_key (s ∷ ss) c
              ≡ broadcast_loop webpush private_key ss (record c { sent = c.sent + 1 }) =
            rw sent refl in
          rw step (rw sent (omega (arith, delivered), omega (arith, all)))
      | inr failed ↦
          let (delivered, all) =
            broadcast_loop-counts webpush private_key ss (record c { failed = c.failed + 1 }) in
          let step : broadcast_loop webpush private_key (s ∷ ss) c
              ≡ broadcast_loop webpush private_key ss (record c { failed = c.failed + 1 }) =
            rw failed refl in
          rw step (rw failed (omega (arith, delivered), omega (arith, all)))
    ]

abbrev key_of : Outcome VapidKeys → String
key_of (ok keys) = keys.private_key
key_of _ = ""

answered-counts :
    (webpush : Webpush) (found : Outcome VapidKeys) (ss : Subscriptions) (r : Counts)
    → with_keys found (λ keys.
      if is_empty keys.private_key
      then unconfigured
      else ok (broadcast_notification webpush keys.private_key ss))
      ≡ ok r
    → (r.sent ≡ length (keep (send_push_notification webpush (key_of found)) ss))
      × (r.sent + r.failed ≡ length ss)
unfolding broadcast_notification
answered-counts webpush (http_exception code detail) ss r h = cc
answered-counts webpush (unhandled error) ss r h = cc
answered-counts webpush (ok keys) ss r h =
    let key = keys.private_key in
    elim (Bool-cases (is_empty key)) [
      | inl none_given ↦ let k = rw none_given at h in absurd (cc k)
      | inr given ↦
          let answer : ok (broadcast_notification webpush key ss) ≡ ok r = rw given at h in
          let e : broadcast_notification webpush key ss ≡ r = cc answer in
          let (delivered, all) =
            broadcast_loop-counts webpush key ss (record { sent = 0; failed = 0 }) in
          rw (← e) (omega (arith, delivered), omega (arith, all))
    ]

-- `send_notification` that answers counts each subscription once, as sent exactly if the message was
-- delivered; without subscriptions it answers zeros, and asks for no keys.
pub send_notification-counts :
    (webpush : Webpush) (env : Environment) (generated : VapidKeys) (file : KeysFile)
    (ss : Subscriptions) (r : Counts)
    → (send_notification webpush env generated file ss).0 ≡ ok r
    → let key = key_of (get_vapid_keys env generated file).0 in
      (r.sent ≡ length (keep (send_push_notification webpush key) ss))
      × (r.sent + r.failed ≡ length ss)
unfolding send_notification broadcast_notification
send_notification-counts webpush env generated file [] r h =
    let e : record { sent = 0; failed = 0 } ≡ r = cc h in rw (← e) (refl, refl)
send_notification-counts webpush env generated file (s ∷ ss) r h =
    answered-counts webpush (get_vapid_keys env generated file).0 (s ∷ ss) r h
