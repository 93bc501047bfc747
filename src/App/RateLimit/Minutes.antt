-- ===== src/App/RateLimit/Minutes.antt =====
-- backend/main.py, `rate_limit_middleware`: the requests of a client in a minute of the clock.
use osint_platform_core.Base.{
  ℕ, suc, ◌+◌, ◌*◌, ◌/◌, ◌≤◌, String, Bool, true, false, none, some, List, [], ◌∷◌, ◌==◌, ◌≡◌, refl,
  arith, ap, sym, ◌∙◌, ◌⊎◌, inl, inr, leb, leb→le, str_eq, str_eq_iff, not, keep, length,
  Bool-cases, if◌then◌else◌, ◌&&◌,
}
use osint_platform_core.App.RateLimit.{
  Counter, Counters, fresh, live, answers, is_exempt, increment, expire_first,
  rate_limit_middleware,
}

pub record Hit : Type 0 where
  pub now : ℕ
  pub path : String
  pub ip : String

-- A request that counts for a client in a minute.
abbrev pub counts_for : (ip : String) → (minute : ℕ) → Hit → Bool
counts_for ip minute h = not (is_exempt h.path) && (str_eq ip h.ip && minute == h.now / 60)

-- The number of those in a history.
abbrev pub hits : (ip : String) → (minute : ℕ) → List Hit → ℕ
hits ip minute hs = length (keep (counts_for ip minute) hs)

-- The counter of a minute, after `n` requests: it does not expire before the minute is over.
record IsCounter (n minute : ℕ) (c : Counter) : Type 0 where
  counted : c.count ≡ n
  lasting :
      ((n ≡ 0) × (c.expires ≡ none)) ⊎ ((t : ℕ) × ((c.expires ≡ some t) × (minute * 60 + 60 ≤ t)))

live-IsCounter : (n now : ℕ) (c : Counter) → IsCounter n (now / 60) c → live now c ≡ c
live-IsCounter n now c h = elim h.lasting [
  | inl (zero', open') ↦ rw open' refl
  | inr (t, (e, late)) ↦ let k : leb t now ≡ false = ground (arith, late) in rw e (rw k refl)
]

first_or_later :
    (n now : ℕ) (c : Counter)
    → IsCounter n (now / 60) c
    → IsCounter (n + 1) (now / 60) (expire_first now (increment c))
first_or_later n now c h = elim (Bool-cases (c.count + 1 == 1)) [
  | inl first ↦
      rw first (record {
        counted = omega (arith, h.counted);
        lasting = inr (now + 60, (refl, omega arith));
      })
  | inr later ↦
      rw later (record { counted = omega (arith, h.counted); lasting = still h.lasting later })
]
  where
    still :
        ((n ≡ 0) × (c.expires ≡ none))
          ⊎ ((t : ℕ) × ((c.expires ≡ some t) × ((now / 60) * 60 + 60 ≤ t)))
        → (c.count + 1 == 1) ≡ false
        → ((n + 1 ≡ 0) × (c.expires ≡ none))
          ⊎ ((t : ℕ) × ((c.expires ≡ some t) × ((now / 60) * 60 + 60 ≤ t)))
    still (inl (e, open')) later = absurd (ground (arith, h.counted, e, later))
    still (inr r) later = inr r

module _ (limit : ℕ) where
  abbrev pub call : Hit → Counters → Bool × Counters
  call h s = rate_limit_middleware limit answers h.now h.path h.ip s

  -- The counters after a history of requests, the latest first, all of which Redis answered.
  unfoldable pub serve : List Hit → Counters
  serve [] = λ ip minute. fresh
  serve (h ∷ hs) = (call h (serve hs)).1

  own-IsCounter :
      (h : Hit) (hs : List Hit)
      → IsCounter (hits h.ip (h.now / 60) hs) (h.now / 60) (serve hs h.ip (h.now / 60))
      → IsCounter
          (suc (hits h.ip (h.now / 60) hs))
          (h.now / 60)
          (expire_first h.now (increment (live h.now (serve hs h.ip (h.now / 60)))))
  own-IsCounter h hs k =
      let e : suc (hits h.ip (h.now / 60) hs) ≡ hits h.ip (h.now / 60) hs + 1 = omega arith in
      rw e (rw (live-IsCounter _ h.now (serve hs h.ip (h.now / 60)) k) (first_or_later _ h.now _ k))

  step-IsCounter :
      (ip : String) (minute : ℕ) (h : Hit) (hs : List Hit)
      → ((i : String) (m : ℕ) → IsCounter (hits i m hs) m (serve hs i m))
      → IsCounter (hits ip minute (h ∷ hs)) minute (serve (h ∷ hs) ip minute)
  unfolding serve rate_limit_middleware
  step-IsCounter ip minute h hs before = elim (Bool-cases (is_exempt h.path)) [
    | inl exempt ↦ rw (exempt, serve, rate_limit_middleware) (before ip minute)
    | inr other ↦ elim (Bool-cases (str_eq ip h.ip && minute == h.now / 60)) [
      | inr elsewhere ↦ rw (other, elsewhere, serve, rate_limit_middleware) (before ip minute)
      | inl own ↦ rw (other, own, serve, rate_limit_middleware) (same own)
    ]
  ]
    where
      same :
          (str_eq ip h.ip && minute == h.now / 60) ≡ true
          → IsCounter
              (suc (hits ip minute hs))
              minute
              (expire_first h.now (increment (live h.now (serve hs h.ip (h.now / 60)))))
      same own =
          let e : ip ≡ h.ip = ground (arith, own, str_eq_iff ip h.ip) in
          let f : minute ≡ h.now / 60 = ground (arith, own) in
          rw (e, f) (own-IsCounter h hs (before h.ip (h.now / 60)))

  serve-IsCounter :
      (hs : List Hit) (ip : String) (minute : ℕ)
      → IsCounter (hits ip minute hs) minute (serve hs ip minute)
  unfolding serve
  serve-IsCounter [] ip minute = record { counted = refl; lasting = inl (refl, refl) }
  serve-IsCounter (h ∷ hs) ip minute = step-IsCounter ip minute h hs (λ i m. serve-IsCounter hs i m)

  -- After any history of requests that Redis answered, in any order of time, a request on a path
  -- that is not exempt passes exactly if it and the requests of its client in its clock minute are
  -- at most `limit` many.
  pub rate_limit_middleware-hits :
      (h : Hit) (hs : List Hit)
      → is_exempt h.path ≡ false
      → (call h (serve hs)).0 ≡ leb (hits h.ip (h.now / 60) hs + 1) limit
  unfolding rate_limit_middleware
  rate_limit_middleware-hits h hs other =
      let k = serve-IsCounter hs h.ip (h.now / 60) in
      rw other (rw (live-IsCounter _ h.now _ k) (ap (λ n. leb (n + 1) limit) k.counted))

  -- The requests that passed.
  unfoldable pub passed : List Hit → List Hit
  passed [] = []
  passed (h ∷ hs) = let rest = passed hs in if (call h (serve hs)).0 then h ∷ rest else rest

  passed-le-hits :
      (ip : String) (minute : ℕ) (hs : List Hit) → hits ip minute (passed hs) ≤ hits ip minute hs
  unfolding passed
  passed-le-hits ip minute [] = omega arith
  passed-le-hits ip minute (h ∷ hs) = elim (Bool-cases (call h (serve hs)).0) [
    | inl passes ↦ rw passes (ground (arith, passed-le-hits ip minute hs))
    | inr blocked ↦ rw blocked (ground (arith, passed-le-hits ip minute hs))
  ]

  -- a request that passed and counts for the client and the minute
  passing-le-limit :
      (ip : String) (minute : ℕ) (h : Hit) (hs : List Hit)
      → counts_for ip minute h ≡ true
      → (call h (serve hs)).0 ≡ true
      → suc (hits ip minute (passed hs)) ≤ limit
  passing-le-limit ip minute h hs own passes =
      let other : is_exempt h.path ≡ false = ground (arith, own) in
      let e : ip ≡ h.ip = ground (arith, own, str_eq_iff ip h.ip) in
      let f : minute ≡ h.now / 60 = ground (arith, own) in
      let below = leb→le _ limit (sym (rate_limit_middleware-hits h hs other) ∙ passes) in
      rw (e, f) (omega (arith, below, passed-le-hits h.ip (h.now / 60) hs))

  -- After any history of requests that Redis answered, in any order of time, the requests of a client
  -- that passed in one minute of the clock, on paths that are not exempt, are at most `limit` many.
  pub hits-passed-le-limit :
      (ip : String) (minute : ℕ) (hs : List Hit) → hits ip minute (passed hs) ≤ limit
  unfolding passed
  hits-passed-le-limit ip minute [] = omega arith
  hits-passed-le-limit ip minute (h ∷ hs) = elim (Bool-cases (call h (serve hs)).0) [
    | inr blocked ↦ rw blocked (hits-passed-le-limit ip minute hs)
    | inl passes ↦ elim (Bool-cases (counts_for ip minute h)) [
      | inr elsewhere ↦ rw passes (rw elsewhere (hits-passed-le-limit ip minute hs))
      | inl own ↦ rw passes (rw own (passing-le-limit ip minute h hs own passes))
    ]
  ]
