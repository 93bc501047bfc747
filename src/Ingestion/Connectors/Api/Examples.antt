-- ===== src/Ingestion/Connectors/Api/Examples.antt =====
-- The API connector against small services.
use osint_platform_core.Base.{
  ℕ, suc, ◌+◌, ◌-◌, ◌*◌, ◌/◌, ◌<◌, none, some, List, [], ◌∷◌, ◌≡◌, refl, take, drop, if◌then◌else◌,
  ltb, leb, ◌==◌, arith,
}
use osint_platform_core.Ingestion.Connectors.Api.{
  list, dict, missing, response, timeout, Connection, Service, fetched, connector_error,
  status_error, fetch, fetch_paginated, items_of,
}
use osint_platform_core.Ingestion.Connectors.Api.Attempts.{fetch-settled}
use osint_platform_core.Ingestion.Connectors.Api.Paging.{
  Serves, fetch_paginated-all, fetch_paginated-truncated, fetch_paginated-endless,
}

abbrev start : Connection
start = record { sent = 0; waits = [] }

abbrev rows : List ℕ
rows = 7 ∷ 8 ∷ 9 ∷ 10 ∷ 11 ∷ []

abbrev page : ℕ → List ℕ
page n = take 2 (drop ((n - 1) * 2) rows)

-- Two to a page, as an object with the items.
abbrev service : Service ℕ
service = record {
  answer = λ sent n. response 200 missing (dict (("items", some (page n)) ∷ []));
  raises = λ code. leb 400 code;
}

service_page : (n : ℕ) → page (suc n) ≡ take 2 (drop (n * 2) rows)
service_page n = let e : suc n - 1 ≡ n = omega arith in rw e refl

serves : (k : ℕ) → Serves 2 (omega arith) service (suc k) (take 2 (drop (k * 2) rows))
unfolding items_of
serves k = record {
  body = dict (("items", some (page (suc k))) ∷ []);
  settled = λ sent. refl;
  same_items = service_page k;
}

fetch_paginated-all_example :
    (c : Connection) × (c.sent ≡ 0 + 5 / 2 + 1)
    × (fetch_paginated service 2 (5 / 2 + 1) start ≡ some (fetched rows, c))
fetch_paginated-all_example = fetch_paginated-all 2 (omega arith) service rows 0 start serves

-- The second page is not found.
abbrev broken : Service ℕ
broken = record {
  answer = λ sent n.
      if n == 1 then response 200 missing (list (7 ∷ 8 ∷ [])) else response 404 missing (list []);
  raises = λ code. leb 400 code;
}

broken_first : (k : ℕ) → k < 1 → Serves 2 (omega arith) broken (suc k) (take 2 (drop (k * 2) rows))
unfolding items_of
broken_first k h =
    let e : k ≡ 0 = omega (arith, h) in
    rw e (record { body = list (7 ∷ 8 ∷ []); settled = λ sent. refl; same_items = refl })

not_found : (x : Connection) → (fetch broken 2 x).0 ≡ connector_error (status_error 404)
unfolding fetch
not_found x = refl

fetch_paginated-truncated_example :
    (c : Connection) × (fetch_paginated broken 2 (1 + 1) start ≡ some (fetched (7 ∷ 8 ∷ []), c))
fetch_paginated-truncated_example =
    fetch_paginated-truncated 2 (omega arith) broken rows 1 0 (status_error 404) start broken_first
      (omega arith) not_found

-- A service that does not read the number of the page.
abbrev stubborn : Service ℕ
stubborn = record {
  answer = λ sent n. response 200 missing (list (7 ∷ 8 ∷ []));
  raises = λ code. leb 400 code;
}

stubborn_page : (n : ℕ) → Serves 2 (omega arith) stubborn n (7 ∷ 8 ∷ [])
unfolding items_of
stubborn_page n = record { body = list (7 ∷ 8 ∷ []); settled = λ sent. refl; same_items = refl }

fetch_paginated-endless_example : fetch_paginated stubborn 2 100 start ≡ none
fetch_paginated-endless_example =
    fetch_paginated-endless 2 (omega arith) stubborn 100 start (λ n. 7 ∷ 8 ∷ []) stubborn_page
      (λ n. omega arith)

-- The third answer is a page.
abbrev slow : Service ℕ
slow = record {
  answer = λ sent n. if ltb sent 2 then timeout else response 200 missing (list (5 ∷ []));
  raises = λ code. leb 400 code;
}

fetch-settled_example :
    ((fetch slow 1 start).0 ≡ fetched (list (5 ∷ []))) × ((fetch slow 1 start).1.sent ≡ 0 + 2 + 1)
fetch-settled_example =
    fetch-settled slow 1 2 start (fetched (list (5 ∷ []))) (omega arith) (λ k h. ground (arith, h))
      refl

abbrev busy : Service ℕ
busy = record { answer = λ sent n. response 503 missing (list []); raises = λ code. leb 400 code }
