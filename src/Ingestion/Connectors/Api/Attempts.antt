-- ===== src/Ingestion/Connectors/Api/Attempts.antt =====
-- backend/ingestion/connectors/api_connector.py: which of the answers to a request decides.
use osint_platform_core.Base.{
  ℕ, zero, suc, ◌+◌, ◌<◌, Bool, true, false, Option, none, some, ◌==◌, nat_in, if◌then◌else◌, ◌≡◌,
  refl, ◌∙◌, ap, arith, Bool-cases, inl, inr,
}
use osint_platform_core.Ingestion.Connectors.Api.{
  Payload, RetryAfter, missing, seconds, unreadable, Reply, response, timeout, request_error,
  LastError, no_attempts_made, Fetched, fetched, connector_error, status_error, value_error,
  Connection, Service, default_retry_statuses, max_retries, after_429, handle_reply, attempts,
  fetch,
}

module _ {A : Type 0} where
  -- What an answer settles that is not a 429, none where the request is made again.
  abbrev pub settles_status : (raises : ℕ → Bool) → ℕ → Payload A → Option (Fetched (Payload A))
  settles_status raises status_code payload =
      if nat_in status_code default_retry_statuses
      then none
      else if raises status_code
      then some (connector_error (status_error status_code))
      else some (fetched payload)

  abbrev settles_429 : RetryAfter → Option (Fetched (Payload A))
  settles_429 unreadable = some value_error
  settles_429 retry_after = none

  -- What an answer settles.
  abbrev pub settles : (raises : ℕ → Bool) → Reply A → Option (Fetched (Payload A))
  settles raises timeout = none
  settles raises (request_error message) = none
  settles raises (response status_code retry_after payload) =
      if status_code == 429
      then settles_429 retry_after
      else settles_status raises status_code payload

  abbrev pub is_response : Reply A → Bool
  is_response timeout = false
  is_response (request_error message) = false
  is_response (response status_code retry_after payload) = true

  -- An answer that settles nothing is followed by the next round, which sends the next request.
  -- A response leaves `last_exc` as it is.
  record IsRetried (reply : Reply A) (before : LastError) (r : Fetched (Payload A) × Connection)
      (c : Connection) (retry : LastError → Connection → Fetched (Payload A) × Connection)
      : Type 0 where
    last : LastError
    next : Connection
    same_sent : next.sent ≡ c.sent
    result : r ≡ retry last next
    kept : is_response reply ≡ true → last ≡ before

  no_change :
      (reply : Reply A) (last : LastError) (c next : Connection)
      (retry : LastError → Connection → Fetched (Payload A) × Connection)
      → next.sent ≡ c.sent
      → IsRetried reply last (retry last next) c retry
  no_change reply last c next retry h = record {
    last = last;
    next = next;
    same_sent = h;
    result = refl;
    kept = λ k. refl;
  }

  module _ (raises : ℕ → Bool) (attempt : ℕ) (last : LastError) (c : Connection)
      (retry : LastError → Connection → Fetched (Payload A) × Connection) where
    after_429-IsRetried :
        (reply : Reply A) (retry_after : RetryAfter)
        → settles_429 retry_after ≡ none
        → IsRetried reply last (after_429 retry_after attempt c (retry last)) c retry
    after_429-IsRetried reply missing h = no_change reply last c _ retry refl
    after_429-IsRetried reply (seconds n) h = no_change reply last c _ retry refl
    after_429-IsRetried reply unreadable h = cc

    settled-429 :
        (retry_after : RetryAfter) (v : Fetched (Payload A))
        → settles_429 retry_after ≡ some v
        → after_429 retry_after attempt c (retry last) ≡ (v, c)
    settled-429 missing v h = cc
    settled-429 (seconds n) v h = cc
    settled-429 unreadable v h = cc

    handle_reply-IsRetried :
        (reply : Reply A)
        → settles raises reply ≡ none
        → IsRetried reply last (handle_reply raises attempt reply last c retry) c retry
    unfolding handle_reply
    handle_reply-IsRetried timeout h = record {
      last = _;
      next = _;
      same_sent = refl;
      result = refl;
      kept = λ k. cc;
    }
    handle_reply-IsRetried (request_error m) h = record {
      last = _;
      next = _;
      same_sent = refl;
      result = refl;
      kept = λ k. cc;
    }
    handle_reply-IsRetried (response code retry_after p) h = elim (Bool-cases (code == 429)) [
      | inl limited ↦ rw limited (after_429-IsRetried _ retry_after (rw limited at h))
      | inr other ↦ elim (Bool-cases (nat_in code default_retry_statuses)) [
        | inl again ↦ rw (other, again) (no_change _ last c _ retry refl)
        | inr final ↦ elim (Bool-cases (raises code)) [
          | inl bad ↦ let k = rw (other, final, bad) at h in cc
          | inr good ↦ let k = rw (other, final, good) at h in cc
        ]
      ]
    ]

    handle-settled :
        (reply : Reply A) (v : Fetched (Payload A))
        → settles raises reply ≡ some v
        → handle_reply raises attempt reply last c retry ≡ (v, c)
    unfolding handle_reply
    handle-settled timeout v h = cc
    handle-settled (request_error m) v h = cc
    handle-settled (response code retry_after p) v h = elim (Bool-cases (code == 429)) [
      | inl limited ↦ rw limited (settled-429 retry_after v (rw limited at h))
      | inr other ↦ elim (Bool-cases (nat_in code default_retry_statuses)) [
        | inl again ↦ let k = rw (other, again) at h in cc
        | inr final ↦ elim (Bool-cases (raises code)) [
          | inl bad ↦ let k = rw (other, final, bad) at h in rw (other, final, bad) (cc k)
          | inr good ↦ let k = rw (other, final, good) at h in rw (other, final, good) (cc k)
        ]
      ]
    ]

  module _ (service : Service A) (page : ℕ) where
    abbrev pub settled_by : ℕ → Option (Fetched (Payload A))
    settled_by k = settles service.raises (service.answer k page)

    retried :
        (left attempt : ℕ) (last : LastError) (c : Connection)
        → settled_by c.sent ≡ none
        → IsRetried
            (service.answer c.sent page)
            last
            (attempts service (suc left) attempt page last c)
            (record c { sent = c.sent + 1 })
            (λ l x. attempts service left (attempt + 1) page l x)
    unfolding attempts
    retried left attempt last c h =
        handle_reply-IsRetried service.raises attempt last (record c { sent = c.sent + 1 })
          (λ l x. attempts service left (attempt + 1) page l x) (service.answer c.sent page) h

    add_none : (n : ℕ) → n + 0 ≡ n
    add_none n = omega arith

    attempts-settled :
        (i left attempt : ℕ) (last : LastError) (c : Connection) (v : Fetched (Payload A))
        → i < left
        → ((k : ℕ) → k < i → settled_by (c.sent + k) ≡ none)
        → settled_by (c.sent + i) ≡ some v
        → ((attempts service left attempt page last c).0 ≡ v)
          × ((attempts service left attempt page last c).1.sent ≡ c.sent + i + 1)
    unfolding attempts
    attempts-settled i zero attempt last c v lt before h = absurd (omega arith)
    attempts-settled zero (suc left) attempt last c v lt before h =
        let now : c.sent + 0 ≡ c.sent = omega arith in
        let decided : settled_by c.sent ≡ some v = rw now at h in
        let c' = record c { sent = c.sent + 1 } in
        rw
          (handle-settled service.raises attempt last c'
            (λ l x. attempts service left (attempt + 1) page l x) (service.answer c.sent page) v
            decided)
          (refl, omega arith)
    attempts-settled (suc i) (suc left) attempt last c v lt before h =
        let r = retried left attempt last c (rw add_none at (before 0 (omega arith))) in
        let shift = λ (k : ℕ).
          ap settled_by
            (let e : r.next.sent + k ≡ c.sent + suc k = omega (arith, r.same_sent) in e) in
        let rest =
          attempts-settled i left (attempt + 1) r.last r.next v (omega arith)
            (λ k le. shift k ∙ before (suc k) (omega arith)) (shift i ∙ h) in
        rw r.result (rest.0, rest.1 ∙ omega (arith, r.same_sent))

    attempts-spent :
        (left attempt : ℕ) (last : LastError) (c : Connection)
        → ((k : ℕ) → k < left → settled_by (c.sent + k) ≡ none)
        → ((k : ℕ) → k < left → is_response (service.answer (c.sent + k) page) ≡ true)
        → ((attempts service left attempt page last c).0 ≡ connector_error last)
          × ((attempts service left attempt page last c).1.sent ≡ c.sent + left)
    unfolding attempts
    attempts-spent zero attempt last c before h = (refl, omega arith)
    attempts-spent (suc left) attempt last c before h =
        let r = retried left attempt last c (rw add_none at (before 0 (omega arith))) in
        let same : (k : ℕ) → r.next.sent + k ≡ c.sent + suc k = λ k. omega (arith, r.same_sent) in
        let rest =
          attempts-spent left (attempt + 1) r.last r.next
            (λ k le. ap settled_by (same k) ∙ before (suc k) (omega arith))
            (λ k le.
              ap (λ n. is_response (service.answer n page)) (same k) ∙ h (suc k) (omega arith)) in
        let kept = r.kept (rw add_none at (h 0 (omega arith))) in
        rw r.result (rest.0 ∙ ap connector_error kept, rest.1 ∙ omega (arith, r.same_sent))

    -- The first of the three next answers that settles anything decides, and no more requests are
    -- sent: a 429 whose Retry-After is no number raises `ValueError`, a 429, 500, 502, 503 or 504, a
    -- timeout and a transport error settle nothing, and of the other status codes those that
    -- `raise_for_status` raises on give an `APIConnectorError`, and the rest the body.
    pub fetch-settled :
        (i : ℕ) (c : Connection) (v : Fetched (Payload A))
        → i < max_retries
        → ((k : ℕ) → k < i → settled_by (c.sent + k) ≡ none)
        → settled_by (c.sent + i) ≡ some v
        → ((fetch service page c).0 ≡ v) × ((fetch service page c).1.sent ≡ c.sent + i + 1)
    unfolding fetch
    fetch-settled i c v lt before h =
        attempts-settled i max_retries 1 no_attempts_made c v lt before h

    -- If three responses in a row settle nothing, the error that is raised after the three requests
    -- says that no attempts were made.
    pub fetch-no_attempts_made :
        (c : Connection)
        → ((k : ℕ) → k < max_retries → settled_by (c.sent + k) ≡ none)
        → ((k : ℕ) → k < max_retries → is_response (service.answer (c.sent + k) page) ≡ true)
        → ((fetch service page c).0 ≡ connector_error no_attempts_made)
          × ((fetch service page c).1.sent ≡ c.sent + 3)
    unfolding fetch
    fetch-no_attempts_made c before h = attempts-spent max_retries 1 no_attempts_made c before h
