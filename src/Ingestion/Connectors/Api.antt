-- ===== src/Ingestion/Connectors/Api.antt =====
-- backend/ingestion/connectors/api_connector.py: a request with its retries, and the paginated fetch.
-- The waits between two requests of the rate limit are left out; those before a retry are recorded.
pub mod Attempts
pub mod Paging
mod Examples
use Prim.Native.Nat.{◌^◌}
use osint_platform_core.Base.{
  ℕ, zero, suc, ◌+◌, ◌*◌, String, Bool, true, false, Option, none, some, List, [], ◌∷◌, ◌++◌, ◌==◌,
  ltb, length, nat_in, if◌then◌else◌,
}
use osint_platform_core.Base.Json.{Dictionary, lookup}

-- The decoded body: a list, an object (with each value that is a list), or another value.
pub data Payload (A : Type 0) : Type 0 where
  list : List A → Payload A
  dict : Dictionary (Option (List A)) → Payload A
  scalar : Payload A

-- The header Retry-After: missing, a number of seconds, or a text that `float` does not read.
pub data RetryAfter : Type 0 where
  missing : RetryAfter
  seconds : ℕ → RetryAfter
  unreadable : RetryAfter

-- What one request gives.
pub data Reply (A : Type 0) : Type 0 where
  response : (status_code : ℕ) → RetryAfter → Payload A → Reply A
  timeout : Reply A
  request_error : (message : String) → Reply A

-- `last_exc`
pub data LastError : Type 0 where
  no_attempts_made : LastError
  timed_out : LastError
  status_error : (status_code : ℕ) → LastError
  transport_error : (message : String) → LastError

-- Data, an `APIConnectorError`, or the `ValueError` of `float`.
pub data Fetched (A : Type 0) : Type 0 where
  fetched : A → Fetched A
  connector_error : LastError → Fetched A
  value_error : Fetched A

-- The requests that were sent, and the seconds waited before a retry, the last one first.
pub record Connection : Type 0 where
  pub sent : ℕ
  pub waits : List ℕ

abbrev pub max_retries : ℕ
max_retries = 3

abbrev pub default_retry_statuses : List ℕ
default_retry_statuses = 429 ∷ 500 ∷ 502 ∷ 503 ∷ 504 ∷ []

abbrev base_backoff : ℕ
base_backoff = 2

abbrev wait : ℕ → Connection → Connection
wait n c = record c { waits = n ∷ c.waits }

-- httpx and the service: the answer to a request for a page, which may depend on how many were sent
-- before, and which status codes `raise_for_status` raises on.
pub record Service (A : Type 0) : Type 0 where
  pub answer : (sent page : ℕ) → Reply A
  pub raises : (status_code : ℕ) → Bool

module _ {A : Type 0} where
  -- Retry with the `retry` that is given, after the wait that Retry-After asks for.
  abbrev pub after_429 :
      RetryAfter
      → (attempt : ℕ) → Connection
      → (retry : Connection → Fetched (Payload A) × Connection) → Fetched (Payload A) × Connection
  after_429 missing attempt c retry = retry (wait (base_backoff * attempt) c)
  after_429 (seconds n) attempt c retry = retry (wait n c)
  after_429 unreadable attempt c retry = (value_error, c)

  -- The body of the loop: `retry` is what the next round does.
  unfoldable pub handle_reply :
      (raises : ℕ → Bool)
      → (attempt : ℕ) → Reply A
      → LastError
      → Connection
      → (retry : LastError → Connection → Fetched (Payload A) × Connection)
      → Fetched (Payload A) × Connection
  handle_reply raises attempt timeout last c retry =
      retry timed_out (wait (base_backoff ^ attempt) c)
  handle_reply raises attempt (request_error message) last c retry =
      retry (transport_error message) (wait (base_backoff ^ attempt) c)
  handle_reply raises attempt (response status_code retry_after payload) last c retry =
      if status_code == 429
      then after_429 retry_after attempt c (retry last)
      else if nat_in status_code default_retry_statuses
      then retry last (wait (base_backoff ^ attempt) c)
      else if raises status_code
      then (connector_error (status_error status_code), c)
      else (fetched payload, c)

  module _ (service : Service A) where
    -- `for attempt in range(1, _MAX_RETRIES + 1)`, with the rounds that are left.
    pub attempts :
        (left attempt : ℕ) → (page : ℕ) → LastError → Connection → Fetched (Payload A) × Connection
    unfolding handle_reply
    attempts zero attempt page last c = (connector_error last, c)
    attempts (suc left) attempt page last c =
        handle_reply service.raises attempt (service.answer c.sent page) last
          (record c { sent = c.sent + 1 }) (λ last' c'. attempts left (attempt + 1) page last' c')

    unfoldable pub fetch : (page : ℕ) → Connection → Fetched (Payload A) × Connection
    unfolding attempts
    fetch page c = attempts max_retries 1 page no_attempts_made c

  -- `key in raw and isinstance(raw[key], list)`, for the first such key
  unfoldable pub listed : (keys : List String) → Dictionary (Option (List A)) → List A
  listed [] raw = []
  listed (key ∷ keys) raw =
      let rest = listed keys raw in
      elim (lookup key raw) [
        | some value ↦ elim value [ some items ↦ items | none ↦ rest ]
        | none ↦ rest
      ]

  unfoldable pub items_of : Payload A → List A
  unfolding listed lookup
  items_of (list items) = items
  items_of (dict raw) = listed ("results" ∷ "data" ∷ "items" ∷ "records" ∷ "entries" ∷ []) raw
  items_of scalar = []

  -- The rest of a round of `while True`: `more` is the next round.
  unfoldable pub collect :
      (page_size : ℕ)
      → (found items : List A) → Connection
      → (more : List A → Option (Fetched (List A) × Connection))
      → Option (Fetched (List A) × Connection)
  collect page_size found [] c more = some (fetched found, c)
  collect page_size found (item ∷ items) c more =
      let all_results = found ++ item ∷ items in
      if ltb (length (item ∷ items)) page_size
      then some (fetched all_results, c)
      else more all_results

  -- A page that failed ends the loop without an error, unless the exception is of another class.
  unfoldable pub collect_page :
      (page_size : ℕ)
      → (found : List A) → Fetched (Payload A)
      → Connection
      → (more : List A → Option (Fetched (List A) × Connection))
      → Option (Fetched (List A) × Connection)
  unfolding collect items_of
  collect_page page_size found (fetched raw) c more = collect page_size found (items_of raw) c more
  collect_page page_size found (connector_error e) c more = some (fetched found, c)
  collect_page page_size found value_error c more = some (value_error, c)

  -- none is that the fuel, a bound on the pages, ran out.
  module _ (service : Service A) (page_size : ℕ) where
    pub paging_loop : (fuel page : ℕ) → List A → Connection → Option (Fetched (List A) × Connection)
    unfolding collect_page fetch
    paging_loop zero page found c = none
    paging_loop (suc fuel) page found c =
        let (result, c') = fetch service page c in
        collect_page page_size found result c' (λ all. paging_loop fuel (page + 1) all c')

    unfoldable pub fetch_paginated :
        (fuel : ℕ) → Connection → Option (Fetched (List A) × Connection)
    unfolding paging_loop
    fetch_paginated fuel c = paging_loop fuel 1 [] c
