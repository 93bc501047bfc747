-- ===== src/Security/RateLimiter/Window.antt =====
-- backend/security/rate_limiting/rate_limiter.py: the bucket after a history of requests at a key.
use osint_platform_core.Base.{
  leb→le, map, ap, ℕ, ◌+◌, ◌≤◌, Bool, true, false, some, List, [], ◌∷◌, ◌≡◌, refl, arith, ltb, leb,
  keep, All, not, Bool-cases, inl, inr, if◌then◌else◌,
}
use osint_platform_core.Security.RateLimiter.{
  Member, Entry, Bucket, same_member, empty_bucket, at_time, record_request, zadd, zremrangebyscore,
  pexpire,
}

-- A history of requests at one key, the latest first. The time and the object make the member.
abbrev pub Call : Type 0
Call = Member

-- The latest request is no earlier than the others, and no two have the same member.
abbrev pub IsHistory : List Call → Type 0
IsHistory [] = Unit
IsHistory (c ∷ cs) =
    All (λ d. d.now_ms ≤ c.now_ms) cs × All (λ d. same_member d c ≡ false) cs × IsHistory cs

-- The specification: the requests that are younger than the window at a time.
abbrev pub in_window : (window now : ℕ) → List Call → List Call
in_window window now cs = keep (λ c. ltb now (c.now_ms + window)) cs

module _ (window : ℕ) where
  unfoldable pub replay : List Call → Bucket
  replay [] = empty_bucket
  replay (c ∷ cs) = record_request window c.now_ms c.object_id (replay cs)

abbrev pub entry : Call → Entry
entry c = record { member = c; score = c.now_ms }

abbrev young : (window now : ℕ) → Entry → Bool
young window now e = not (leb (e.score + window) now)

keep-others :
    (window t : ℕ) (c : Call) (cs : List Call)
    → All (λ d. same_member d c ≡ false) cs
    → keep (λ e. not (same_member e.member c)) (map entry (in_window window t cs))
      ≡ map entry (in_window window t cs)
keep-others window t c [] h = refl
keep-others window t c (d ∷ ds) h = elim (Bool-cases (ltb t (d.now_ms + window))) [
  | inl fresh ↦ rw (fresh, h.0) (ap (λ es. entry d ∷ es) (keep-others window t c ds h.1))
  | inr old ↦ rw old (keep-others window t c ds h.1)
]

-- the test that the prune makes of the entry which the request itself adds
young_self : (window now : ℕ) → not (leb (now + window) now) ≡ ltb now (now + window)
young_self window now = ground arith

keep-young :
    (window t now : ℕ) (cs : List Call)
    → t ≤ now
    → keep (young window now) (map entry (in_window window t cs))
      ≡ map entry (in_window window now cs)
keep-young window t now [] h = refl
keep-young window t now (d ∷ ds) h = ground (arith, keep-young window t now ds h)

in_window-nil :
    (window t now : ℕ) (cs : List Call)
    → All (λ d. d.now_ms ≤ t) cs
    → t + window ≤ now
    → in_window window now cs ≡ []
in_window-nil window t now [] h k = refl
in_window-nil window t now (d ∷ ds) h k = ground (arith, in_window-nil window t now ds h.1 k, h.0)

-- What a request leaves of the older entries.
abbrev survivors : (window : ℕ) → Call → Bucket → List Entry
survivors window c b =
    keep (young window c.now_ms)
      (keep (λ e. not (same_member e.member c)) (at_time c.now_ms b).entries)

request-survivors :
    (window : ℕ) (c : Call) (b : Bucket)
    → (record_request window c.now_ms c.object_id b).entries ≡ (
        if ltb c.now_ms (c.now_ms + window)
        then entry c ∷ survivors window c b
        else survivors window c b)
unfolding record_request zadd zremrangebyscore pexpire
request-survivors window c b = rw (young_self window c.now_ms)

at_time-kept :
    (window t now : ℕ) (b : Bucket)
    → b.expires ≡ some (t + window)
    → leb (t + window) now ≡ false
    → at_time now b ≡ b
at_time-kept window t now b e k = rw (e, k)

at_time-gone :
    (window t now : ℕ) (b : Bucket)
    → b.expires ≡ some (t + window)
    → leb (t + window) now ≡ true
    → at_time now b ≡ empty_bucket
at_time-gone window t now b e k = rw (e, k)

-- The expiry of the key, set by the latest request, removes only what the prune removes anyway.
survivors-in_window :
    (window t : ℕ) (c : Call) (cs : List Call) (b : Bucket)
    → b.expires ≡ some (t + window)
    → b.entries ≡ map entry (in_window window t cs)
    → All (λ d. d.now_ms ≤ t) cs
    → t ≤ c.now_ms
    → All (λ d. same_member d c ≡ false) cs
    → survivors window c b ≡ map entry (in_window window c.now_ms cs)
survivors-in_window window t c cs b expires held older later distinct =
    elim (Bool-cases (leb (t + window) c.now_ms)) [
      | inl over ↦
          rw (at_time-gone window t c.now_ms b expires over)
            (rw (in_window-nil window t c.now_ms cs older (leb→le _ _ over)))
      | inr runs ↦ rw (at_time-kept window t c.now_ms b expires runs) (
          rw held (rw (keep-others window t c cs distinct) (keep-young window t c.now_ms cs later)))
    ]

expires-request :
    (window now id : ℕ) (b : Bucket)
    → (record_request window now id b).expires ≡ some (now + window)
unfolding record_request pexpire
expires-request window now id b = refl

map-in_window-cons :
    (window now : ℕ) (c : Call) (cs : List Call)
    → (if ltb now (c.now_ms + window)
        then entry c ∷ map entry (in_window window now cs)
        else map entry (in_window window now cs))
      ≡ map entry (in_window window now (c ∷ cs))
map-in_window-cons window now c cs = ground arith

module _ (window : ℕ) where
  expires-replay :
      (c : Call) (cs : List Call) → (replay window (c ∷ cs)).expires ≡ some (c.now_ms + window)
  unfolding replay
  expires-replay c cs = expires-request window c.now_ms c.object_id (replay window cs)

  entries-step :
      (c : Call) (cs : List Call)
      → survivors window c (replay window cs) ≡ map entry (in_window window c.now_ms cs)
      → (replay window (c ∷ cs)).entries ≡ map entry (in_window window c.now_ms (c ∷ cs))
  unfolding replay
  entries-step c cs e =
      rw (request-survivors window c (replay window cs))
        (rw e (map-in_window-cons window c.now_ms c cs))

  survivors-empty : (c : Call) → survivors window c (replay window []) ≡ []
  unfolding replay
  survivors-empty c = refl

  -- The bucket after a history of requests holds exactly the requests of the last window.
  pub replay-entries :
      (cs : List Call) (c : Call)
      → IsHistory (c ∷ cs)
      → (replay window (c ∷ cs)).entries ≡ map entry (in_window window c.now_ms (c ∷ cs))
  replay-entries [] c h = entries-step c [] (survivors-empty c)
  replay-entries (d ∷ ds) c h = entries-step c (d ∷ ds) (
      survivors-in_window window d.now_ms c (d ∷ ds) (replay window (d ∷ ds)) (expires-replay d ds)
        (replay-entries ds d h.2) (omega arith, h.2.0) h.0.0 h.1)
