-- ===== src/Security/RateLimiter/Probes.antt =====
-- backend/security/rate_limiting/rate_limiter.py: an inspection by `get_limit_info`, and a
-- repeated member.
use osint_platform_core.Base.{
  ℕ, ◌+◌, ◌*◌, ◌≤◌, ◌<◌, String, Bool, true, false, Option, none, some, List, [], ◌∷◌, ◌≡◌, refl,
  arith, leb, keep, not, Bool-cases, inl, inr, ap, ◌∙◌, str_eq_refl, if◌then◌else◌,
}
use osint_platform_core.Security.RateLimiter.{
  Member, Entry, Bucket, Limiter, answers, record_request, is_allowed, zcard, zadd,
  zremrangebyscore, pexpire, same_member, at_time, get_limit_info,
}

-- A filter that a later, stricter filter makes superfluous.
keep-keep {ℓ} :
    {A : Type ℓ} (p q : A → Bool) (xs : List A)
    → ((x : A) → p x ≡ true → q x ≡ true)
    → keep p (keep q xs) ≡ keep p xs
keep-keep p q [] h = refl
keep-keep p q (x ∷ xs) h = elim (Bool-cases (q x)) [
  | inl present ↦ rw present (ap (λ ys. if p x then x ∷ ys else ys) (keep-keep p q xs h))
  | inr absent ↦ ground (arith, keep-keep p q xs h, h x)
]

keep_comm {ℓ} :
    {A : Type ℓ} (p q : A → Bool) (xs : List A) → keep p (keep q xs) ≡ keep q (keep p xs)
keep_comm p q [] = refl
keep_comm p q (x ∷ xs) = ground (arith, keep_comm p q xs)

abbrev young : (window now : ℕ) → Entry → Bool
young window now e = not (leb (e.score + window) now)

young_mono :
    (window now later : ℕ)
    → now ≤ later
    → (e : Entry) → young window later e ≡ true
    → young window now e ≡ true
young_mono window now later h e k = ground arith

keep-young-twice :
    (window now later : ℕ) (q : Entry → Bool) (es : List Entry)
    → now ≤ later
    → keep (young window later) (keep q (keep (young window now) es))
      ≡ keep (young window later) (keep q es)
keep-young-twice window now later q es h =
    ap (keep (young window later)) (keep_comm q (young window now) es)
    ∙ keep-keep (young window later) (young window now) (keep q es) (young_mono window now later h)

abbrev bucket : List Entry → Option ℕ → Bucket
bucket es expires = record { entries = es; expires = expires }

-- A prune that comes before a request does not change what the request leaves.
record-prune :
    (window now later id : ℕ) (es : List Entry) (o : Option ℕ)
    → now ≤ later
    → record_request window later id (zremrangebyscore now window (at_time now (bucket es o)))
      ≡ record_request window later id (bucket es o)
unfolding record_request zadd zremrangebyscore pexpire
record-prune window now later id es none h = rw (
    keep-young-twice window now later
      (λ e. not (same_member e.member (record { now_ms = later; object_id = id }))) es h)
record-prune window now later id es (some t) h = elim (Bool-cases (leb t now)) [
  | inl over ↦ let gone : leb t later ≡ true = ground arith in rw over (rw gone)
  | inr runs ↦ rw runs (elim (Bool-cases (leb t later)) [
    | inl over ↦ rw over
    | inr going ↦ rw going (
        rw (
          keep-young-twice window now later
            (λ e. not (same_member e.member (record { now_ms = later; object_id = id }))) es h))
  ])
]

-- Inspecting a key records nothing: whatever the inspection prunes, every later request gets the
-- verdict that it would have got without the inspection, if it does not come at an earlier time.
pub is_allowed-get_limit_info :
    (key : String) (limit inspected : Option ℕ) (now later id : ℕ) (l : Limiter)
    → now ≤ later
    → (is_allowed key limit later id answers (get_limit_info key inspected now answers l).1).0
      ≡ (is_allowed key limit later id answers l).0
unfolding is_allowed get_limit_info
is_allowed-get_limit_info key none inspected now later id l h = rw (str_eq_refl key) (
    rw (
      record-prune (l.window_seconds * 1000) now later id (l.buckets key).entries
        (l.buckets key).expires h))
is_allowed-get_limit_info key (some n) inspected now later id l h = rw (str_eq_refl key) (
    rw (
      record-prune (l.window_seconds * 1000) now later id (l.buckets key).entries
        (l.buckets key).expires h))

keep_idem {ℓ} : {A : Type ℓ} (p : A → Bool) (xs : List A) → keep p (keep p xs) ≡ keep p xs
keep_idem p xs = keep-keep p p xs (λ x h. h)

keep-both {ℓ} :
    {A : Type ℓ} (p q : A → Bool) (xs : List A)
    → keep p (keep q (keep p (keep q xs))) ≡ keep p (keep q xs)
keep-both p q xs =
    ap (keep p) (keep_comm q p (keep q xs))
    ∙ keep_idem p (keep q (keep q xs))
    ∙ ap (keep p) (keep_idem q xs)

same_member_refl : (m : Member) → same_member m m ≡ true
same_member_refl m = ground arith

-- A second request with the same member leaves the same number of entries.
record-same :
    (window now id : ℕ) (b : Bucket)
    → 0 < window
    → zcard (record_request window now id (record_request window now id b))
      ≡ zcard (record_request window now id b)
unfolding record_request zadd zremrangebyscore pexpire zcard
record-same window now id b h =
    let m : Member = record { now_ms = now; object_id = id } in
    let fresh : leb (now + window) now ≡ false = ground arith in
    rw fresh (
      rw (same_member_refl m) (
        rw (
          keep-both (young window now) (λ e. not (same_member e.member m))
            (at_time now b).entries)))

-- Two requests of one millisecond for which `id(object())` is the same number have one member, so
-- the second gets the verdict of the first, if the window is not empty: they count as one request.
pub is_allowed-same_member :
    (key : String) (limit now id : ℕ) (l : Limiter)
    → 0 < l.window_seconds
    → (is_allowed key
        (some limit)
        now
        id
        answers
        (is_allowed key (some limit) now id answers l).1).0
      ≡ (is_allowed key (some limit) now id answers l).0
unfolding is_allowed
is_allowed-same_member key limit now id l h =
    rw (str_eq_refl key)
      (rw (record-same (l.window_seconds * 1000) now id (l.buckets key) (omega arith)))
