-- ===== src/App/RateLimit.antt =====
-- backend/main.py, `rate_limit_middleware`: a counter in Redis for each client and clock minute. Times
-- are in seconds.
pub mod Minutes
mod Examples
use osint_platform_core.Base.{
  ℕ, ◌+◌, ◌/◌, String, Bool, true, false, Option, none, some, List, [], ◌∷◌, ◌==◌, leb, str_eq,
  str_in, if◌then◌else◌, ◌&&◌,
}

pub record Counter : Type 0 where
  pub count : ℕ
  pub expires : Option ℕ

-- The counters of a client, at the number of the minute.
abbrev pub Counters : Type 0
Counters = (ip : String) → (minute : ℕ) → Counter

abbrev pub fresh : Counter
fresh = record { count = 0; expires = none }

-- A key whose time is over is gone.
abbrev is_over : ℕ → Option ℕ → Bool
is_over now none = false
is_over now (some t) = leb t now

abbrev pub live : (now : ℕ) → Counter → Counter
live now c = if is_over now c.expires then fresh else c

-- How the call of Redis goes: there is no client, it answers, or one of the two commands raises.
pub data Redis : Type 0 where
  missing answers increment_raises expire_raises : Redis

abbrev exempt_paths : List String
exempt_paths = "/health" ∷ "/docs" ∷ "/redoc" ∷ "/openapi.json" ∷ []

unfoldable pub is_exempt : (path : String) → Bool
is_exempt path = str_in path exempt_paths

-- `redis.increment(key)`: the counter after it
abbrev pub increment : Counter → Counter
increment c = record c { count = c.count + 1 }

-- `if count == 1: redis.expire(key, 60)`
abbrev pub expire_first : (now : ℕ) → Counter → Counter
expire_first now c = if c.count == 1 then record c { expires = some (now + 60) } else c

abbrev pub put : (ip : String) → (minute : ℕ) → Counter → Counters → Counters
put ip minute c s = λ i m. if str_eq i ip && m == minute then c else s i m

module _ (limit : ℕ) where
  -- Whether the request is passed on, and the counters after it.
  abbrev counted : Redis → (now : ℕ) → (ip : String) → Counters → Bool × Counters
  counted missing now ip s = (true, s)
  counted increment_raises now ip s = (true, s)
  counted answers now ip s =
      let c = increment (live now (s ip (now / 60))) in
      (leb c.count limit, put ip (now / 60) (expire_first now c) s)
  counted expire_raises now ip s =
      let c = increment (live now (s ip (now / 60))) in
      ((if c.count == 1 then true else leb c.count limit), put ip (now / 60) c s)

  unfoldable pub rate_limit_middleware :
      Redis → (now : ℕ) → (path ip : String) → Counters → Bool × Counters
  unfolding is_exempt
  rate_limit_middleware redis now path ip s =
      if is_exempt path then (true, s) else counted redis now ip s
