-- ===== src/Security/RateLimiter.antt =====
-- backend/security/rate_limiting/rate_limiter.py: the sliding window over a Redis sorted set.
-- A bucket is what Redis holds at one key: the sorted set and the time at which the key expires.
pub mod Window
pub mod Limits
pub mod Probes
use osint_platform_core.Base.{
  ℕ, ◌+◌, ◌-◌, ◌*◌, ◌/◌, String, Bool, true, false, Option, none, some, List, [], ◌∷◌, ◌==◌, ltb,
  leb, str_eq, any, keep, length, not, if◌then◌else◌, ◌&&◌,
}

-- A member is the text `f"{now_ms}-{id(object())}"`: the two numbers that it spells.
pub record Member : Type 0 where
  pub now_ms : ℕ
  pub object_id : ℕ

pub record Entry : Type 0 where
  pub member : Member
  pub score : ℕ

pub record Bucket : Type 0 where
  pub entries : List Entry
  pub expires : Option ℕ

abbrev pub same_member : Member → Member → Bool
same_member a b = a.now_ms == b.now_ms && a.object_id == b.object_id

abbrev pub empty_bucket : Bucket
empty_bucket = record { entries = []; expires = none }

-- A key whose time is over is gone.
abbrev pub is_over : ℕ → Option ℕ → Bool
is_over now none = false
is_over now (some t) = leb t now

abbrev pub at_time : ℕ → Bucket → Bucket
at_time now b = if is_over now b.expires then empty_bucket else b

-- The commands of the pipeline. `ZADD` of a member that is there sets its score.
zadd : Member → ℕ → Bucket → Bucket
zadd m score b = record b {
  entries =
      record { member = m; score = score } ∷ keep (λ e. not (same_member e.member m)) b.entries;
}

-- `ZREMRANGEBYSCORE key 0 (now - window)`: scores are not negative, and the cutoff may be.
pub zremrangebyscore : (now_ms window_ms : ℕ) → Bucket → Bucket
zremrangebyscore now_ms window_ms b = record b {
  entries = keep (λ e. not (leb (e.score + window_ms) now_ms)) b.entries;
}

pub zcard : Bucket → ℕ
zcard b = length b.entries

pexpire : (now_ms window_ms : ℕ) → Bucket → Bucket
pexpire now_ms window_ms b = record b { expires = some (now_ms + window_ms) }

-- The part of `is_allowed` in the transaction: the bucket after it.
pub record_request : (window_ms now_ms object_id : ℕ) → Bucket → Bucket
unfolding zadd zremrangebyscore pexpire
record_request window_ms now_ms object_id b = pexpire now_ms window_ms (
    zremrangebyscore now_ms window_ms
      (zadd (record { now_ms = now_ms; object_id = object_id }) now_ms (at_time now_ms b)))

-- The limiter: the settings of the instance, and Redis.
pub record Limiter : Type 0 where
  pub default_limit : ℕ
  pub window_seconds : ℕ
  pub buckets : String → Bucket

abbrev pub put_bucket : String → Bucket → Limiter → Limiter
put_bucket key b l = record l { buckets = λ k. if str_eq k key then b else l.buckets k }

abbrev pub effective_limit : Option ℕ → Limiter → ℕ
effective_limit none l = l.default_limit
effective_limit (some limit) l = limit

pub record Verdict : Type 0 where
  pub allowed : Bool
  pub remaining : ℕ
  pub reset_at : ℕ

pub record LimitInfo : Type 0 where
  pub limit : ℕ
  pub remaining : ℕ
  pub reset_at : ℕ
  pub current_count : ℕ

-- Redis answers, or the call to it raises at the time `now_s` (in seconds).
pub data Redis : Type 0 where
  answers : Redis
  raises : (now_s : ℕ) → Redis

unfoldable pub is_allowed :
    (key : String)
    → (limit : Option ℕ) → (now_ms object_id : ℕ) → Redis
    → Limiter
    → Verdict × Limiter
is_allowed key limit now_ms object_id answers l =
    let window_ms = l.window_seconds * 1000 in
    let b = record_request window_ms now_ms object_id (l.buckets key) in
    (
      record {
        allowed = leb (zcard b) (effective_limit limit l);
        remaining = effective_limit limit l - zcard b;
        reset_at = (now_ms + window_ms) / 1000;
      },
      put_bucket key b l,
    )
is_allowed key limit now_ms object_id (raises now_s) l = (
  record {
    allowed = true;
    remaining = effective_limit limit l;
    reset_at = now_s + l.window_seconds;
  },
  l,
)

unfoldable pub reset : (key : String) → Redis → Limiter → Limiter
reset key answers l = put_bucket key empty_bucket l
reset key (raises now_s) l = l

unfoldable pub get_limit_info :
    (key : String) → (limit : Option ℕ) → (now_ms : ℕ) → Redis → Limiter → LimitInfo × Limiter
get_limit_info key limit now_ms answers l =
    let window_ms = l.window_seconds * 1000 in
    let b = zremrangebyscore now_ms window_ms (at_time now_ms (l.buckets key)) in
    (
      record {
        limit = effective_limit limit l;
        remaining = effective_limit limit l - zcard b;
        reset_at = (now_ms + window_ms) / 1000;
        current_count = zcard b;
      },
      put_bucket key b l,
    )
get_limit_info key limit now_ms (raises now_s) l = (
  record {
    limit = effective_limit limit l;
    remaining = effective_limit limit l;
    reset_at = now_s + l.window_seconds;
    current_count = 0;
  },
  l,
)
