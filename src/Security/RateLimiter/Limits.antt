-- ===== src/Security/RateLimiter/Limits.antt =====
-- backend/security/rate_limiting/rate_limiter.py: `is_allowed` after a history of requests at a
-- key.
use osint_platform_core.Base.{
  ℕ, suc, ◌-◌, ◌*◌, ◌≤◌, String, false, Option, some, List, [], ◌∷◌, ◌≡◌, refl, arith, leb, leb→le,
  All, length, map, Bool-cases, inl, inr, ap, ◌∙◌, sym, str_eq_refl, str_eq, if◌then◌else◌,
}
use native.Mathlib.Nat.{le_trans}
use osint_platform_core.Security.RateLimiter.{
  Limiter, Verdict, answers, empty_bucket, record_request, is_allowed, zcard,
}
use osint_platform_core.Security.RateLimiter.Window.{
  Call, IsHistory, in_window, replay, replay-entries, entry,
}

abbrev pub window_of : Limiter → ℕ
window_of l = l.window_seconds * 1000

length-map-entry : (cs : List Call) → length (map entry cs) ≡ length cs
length-map-entry [] = refl
length-map-entry (c ∷ cs) = ap suc (length-map-entry cs)

module _ (key : String) (limit : ℕ) where
  abbrev pub call : Call → Limiter → Verdict × Limiter
  call c l = is_allowed key (some limit) c.now_ms c.object_id answers l

  -- The limiter after a history of requests at the key, all of which Redis answered.
  unfoldable pub serve : Limiter → List Call → Limiter
  serve l [] = l
  serve l (c ∷ cs) = (call c (serve l cs)).1

  -- The requests that were allowed.
  unfoldable pub allowed_calls : Limiter → List Call → List Call
  allowed_calls l [] = []
  allowed_calls l (c ∷ cs) =
      let rest = allowed_calls l cs in if (call c (serve l cs)).0.allowed then c ∷ rest else rest

  window_seconds-serve :
      (l : Limiter) (cs : List Call) → (serve l cs).window_seconds ≡ l.window_seconds
  unfolding serve is_allowed
  window_seconds-serve l [] = refl
  window_seconds-serve l (c ∷ cs) = window_seconds-serve l cs

  bucket-serve :
      (l : Limiter) (cs : List Call)
      → l.buckets key ≡ empty_bucket
      → (serve l cs).buckets key ≡ replay (window_of l) cs
  unfolding serve is_allowed replay
  bucket-serve l [] h = h
  bucket-serve l (c ∷ cs) h =
      rw (str_eq_refl key) (rw (bucket-serve l cs h, window_seconds-serve l cs))

  count-serve :
      (l : Limiter) (c : Call) (cs : List Call)
      → l.buckets key ≡ empty_bucket
      → IsHistory (c ∷ cs)
      → zcard (replay (window_of l) (c ∷ cs)) ≡ length (in_window (window_of l) c.now_ms (c ∷ cs))
  unfolding zcard
  count-serve l c cs h hist =
      ap length (replay-entries (window_of l) cs c hist)
      ∙ length-map-entry (in_window (window_of l) c.now_ms (c ∷ cs))

  -- the count that `is_allowed` sees
  zcard-serve :
      (l : Limiter) (c : Call) (cs : List Call)
      → l.buckets key ≡ empty_bucket
      → IsHistory (c ∷ cs)
      → zcard
          (record_request (window_of (serve l cs)) c.now_ms c.object_id ((serve l cs).buckets key))
        ≡ length (in_window (window_of l) c.now_ms (c ∷ cs))
  unfolding replay
  zcard-serve l c cs h hist =
      rw (window_seconds-serve l cs) (rw (bucket-serve l cs h) (count-serve l c cs h hist))

  -- The sliding window: from a key without requests, after any history of requests with distinct
  -- members and times that never go back, Redis answering all of them, a request is allowed exactly
  -- if it and the requests of the last window are at most `limit` many, and `remaining` is what is
  -- left of the limit.
  pub is_allowed-in_window :
      (l : Limiter) (c : Call) (cs : List Call)
      → l.buckets key ≡ empty_bucket
      → IsHistory (c ∷ cs)
      → ((call c (serve l cs)).0.allowed
          ≡ leb (length (in_window (window_of l) c.now_ms (c ∷ cs))) limit)
        × ((call c (serve l cs)).0.remaining
            ≡ limit - length (in_window (window_of l) c.now_ms (c ∷ cs)))
  unfolding is_allowed
  is_allowed-in_window l c cs h hist =
      let e = zcard-serve l c cs h hist in (ap (λ n. leb n limit) e, ap (λ n. limit - n) e)

  in_window_mono :
      (window now later : ℕ) (cs : List Call)
      → now ≤ later
      → length (in_window window later cs) ≤ length (in_window window now cs)
  in_window_mono window now later [] h = omega arith
  in_window_mono window now later (d ∷ ds) h = ground (arith, in_window_mono window now later ds h)

  allowed-le-all :
      (l : Limiter) (window now : ℕ) (cs : List Call)
      → length (in_window window now (allowed_calls l cs)) ≤ length (in_window window now cs)
  unfolding allowed_calls
  allowed-le-all l window now [] = omega arith
  allowed-le-all l window now (c ∷ cs) = elim (Bool-cases (call c (serve l cs)).0.allowed) [
    | inl passed ↦ rw passed (ground (arith, allowed-le-all l window now cs))
    | inr blocked ↦ rw blocked (ground (arith, allowed-le-all l window now cs))
  ]

  -- From a key without requests, after any history of requests with distinct members and times
  -- that never go back, Redis answering all of them, at most `limit` of the allowed requests lie
  -- in the window that ends at any time not before the last request.
  pub allowed-le-limit :
      (l : Limiter) (now : ℕ) (cs : List Call)
      → l.buckets key ≡ empty_bucket
      → IsHistory cs
      → All (λ c. c.now_ms ≤ now) cs
      → length (in_window (window_of l) now (allowed_calls l cs)) ≤ limit
  unfolding allowed_calls
  allowed-le-limit l now [] h hist past = omega arith
  allowed-le-limit l now (c ∷ cs) h hist past = elim (Bool-cases (call c (serve l cs)).0.allowed) [
    | inl passed ↦ le_trans (allowed-le-all l (window_of l) now (c ∷ cs)) (
        le_trans (in_window_mono (window_of l) c.now_ms now (c ∷ cs) past.0)
          (leb→le _ limit (sym (is_allowed-in_window l c cs h hist).0 ∙ passed)))
    | inr blocked ↦ rw blocked (allowed-le-limit l now cs h hist.2 past.1)
  ]

-- Requests at one key do not touch another.
bucket-other :
    (key other : String) (limit : Option ℕ) (now id : ℕ) (l : Limiter)
    → str_eq other key ≡ false
    → (is_allowed key limit now id answers l).1.buckets other ≡ l.buckets other
unfolding is_allowed
bucket-other key other limit now id l h = rw h
