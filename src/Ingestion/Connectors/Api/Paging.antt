-- ===== src/Ingestion/Connectors/Api/Paging.antt =====
-- backend/ingestion/connectors/api_connector.py: what the paginated fetch returns.
use mathlib.Core.List.{append-nil}
use native.Mathlib.Nat.{lt-div-mul-add, div-mul-le_self, le_trans, mul-le-mul_right}
use osint_platform_core.Base.{
  ℕ, zero, suc, ◌+◌, ◌-◌, ◌*◌, ◌/◌, ◌≤◌, ◌<◌, true, false, Option, none, some, List, [], ◌∷◌, ◌++◌,
  ltb, min, take, drop, length, length-take, length-drop, take-drop, take_all, ◌≡◌, refl, ◌∙◌, ap,
  arith,
}
use osint_platform_core.Ingestion.Connectors.Api.{
  Payload, Fetched, fetched, connector_error, LastError, Connection, Service, fetch, collect,
  collect_page, items_of, paging_loop, fetch_paginated,
}
use osint_platform_core.Ingestion.Connectors.Api.Attempts.{settled_by, fetch-settled}

module _ {A : Type 0} (page_size : ℕ) (positive : 0 < page_size) where
  collect-short :
      (found items : List A) (c : Connection)
      → (more : List A → Option (Fetched (List A) × Connection)) → length items < page_size
      → collect page_size found items c more ≡ some (fetched (found ++ items), c)
  unfolding collect
  collect-short found [] c more h = rw append-nil refl
  collect-short found (x ∷ xs) c more h =
      let short : ltb (length (x ∷ xs)) page_size ≡ true = ground (arith, h) in rw short refl

  collect-full :
      (found items : List A) (c : Connection)
      → (more : List A → Option (Fetched (List A) × Connection)) → page_size ≤ length items
      → collect page_size found items c more ≡ more (found ++ items)
  unfolding collect
  collect-full found [] c more h = absurd (omega arith)
  collect-full found (x ∷ xs) c more h =
      let full : ltb (length (x ∷ xs)) page_size ≡ false = ground (arith, h) in rw full refl

  module _ (service : Service A) where
    -- The page is answered with these items, at the first request.
    pub record Serves (page : ℕ) (items : List A) : Type 0 where
      pub body : Payload A
      pub settled : (sent : ℕ) → settled_by service page sent ≡ some (fetched body)
      pub same_items : items_of body ≡ items

    fetch-Serves :
        (page : ℕ) (items : List A) (s : Serves page items) (c : Connection)
        → ((fetch service page c).0 ≡ fetched s.body) × ((fetch service page c).1.sent ≡ c.sent + 1)
    fetch-Serves page items s c =
        let r =
          fetch-settled service page 0 c (fetched s.body) (omega arith)
            (λ k h. absurd (omega arith)) (s.settled (c.sent + 0)) in
        (r.0, r.1 ∙ omega arith)

    -- A round whose page is full is followed by the next one, and a short page is the last.
    round-full :
        (fuel page : ℕ) (found items : List A) (c : Connection)
        → Serves page items
        → page_size ≤ length items
        → (c' : Connection) × (c'.sent ≡ c.sent + 1)
          × (paging_loop service page_size (suc fuel) page found c
              ≡ paging_loop service page_size fuel (page + 1) (found ++ items) c')
    unfolding paging_loop collect_page
    round-full fuel page found items c s h =
        let (got, sent) = fetch-Serves page items s c in
        ((fetch service page c).1, sent, rw got (rw s.same_items (collect-full found items _ _ h)))

    round-short :
        (fuel page : ℕ) (found items : List A) (c : Connection)
        → Serves page items
        → length items < page_size
        → (c' : Connection) × (c'.sent ≡ c.sent + 1)
          × (paging_loop service page_size (suc fuel) page found c
              ≡ some (fetched (found ++ items), c'))
    unfolding paging_loop collect_page
    round-short fuel page found items c s h =
        let (got, sent) = fetch-Serves page items s c in
        ((fetch service page c).1, sent, rw got (rw s.same_items (collect-short found items _ _ h)))

    -- Page `n + 1` of a list, as a service cuts it.
    abbrev pub page_of : List A → (n : ℕ) → List A
    page_of rows n = take page_size (drop (n * page_size) rows)

    page-joins :
        (rows : List A) (n : ℕ)
        → take (n * page_size) rows ++ page_of rows n ≡ take (suc n * page_size) rows
    page-joins rows n =
        let e : suc n * page_size ≡ n * page_size + page_size = omega arith in
        rw e (take-drop (n * page_size) page_size rows)

    page-length :
        (rows : List A) (n : ℕ)
        → length (page_of rows n) ≡ min page_size (length rows - n * page_size)
    page-length rows n =
        length-take page_size (drop (n * page_size) rows)
        ∙ ap (min page_size) (length-drop (n * page_size) rows)

    -- `count` pages from page `n + 1` on are full and are read one after the other.
    full_pages :
        (rows : List A) (count n fuel : ℕ) (c : Connection)
        → ((k : ℕ) → k < n + count → Serves (suc k) (page_of rows k))
        → (n + count) * page_size ≤ length rows
        → (c' : Connection) × (c'.sent ≡ c.sent + count)
          × (paging_loop service page_size (count + fuel) (suc n) (take (n * page_size) rows) c
              ≡ paging_loop service page_size fuel
                  (suc (n + count))
                  (take ((n + count) * page_size) rows)
                  c')
    full_pages rows zero n fuel c serves le =
        let e : n + 0 ≡ n = omega arith in
        let f : 0 + fuel ≡ fuel = omega arith in (c, omega arith, rw (e, f) refl)
    full_pages rows (suc count) n fuel c serves le =
        let grown : suc n + count ≡ n + suc count = omega arith in
        let enough : suc n * page_size ≤ length rows =
          le_trans (mul-le-mul_right page_size (omega arith)) le in
        let full : page_size ≤ length (page_of rows n) =
          rw (page-length rows n) (omega (arith, enough)) in
        let (c₁, sent₁, step) =
          round-full (count + fuel) (suc n) (take (n * page_size) rows) (page_of rows n) c
            (serves n (omega arith)) full in
        let (c₂, sent₂, rest) =
          full_pages rows count (suc n) fuel c₁ (λ k lt. serves k (omega arith)) (rw grown le) in
        let more : suc count + fuel ≡ suc (count + fuel) = omega arith in
        let next : suc n + 1 ≡ suc (suc n) = omega arith in
        (
          c₂,
          omega (arith, sent₁, sent₂),
          rw more (step ∙ rw (page-joins rows n, next) (rest ∙ rw grown refl)),
        )

    round-fails :
        (fuel page : ℕ) (found : List A) (c : Connection) (e : LastError)
        → (fetch service page c).0 ≡ connector_error e
        → paging_loop service page_size (suc fuel) page found c
          ≡ some (fetched found, (fetch service page c).1)
    unfolding paging_loop collect_page
    round-fails fuel page found c e h = rw h refl

    loop-endless :
        (items : ℕ → List A)
        → ((page : ℕ) → Serves page (items page))
        → ((page : ℕ) → page_size ≤ length (items page))
        → (fuel page : ℕ) (found : List A) (c : Connection)
        → paging_loop service page_size fuel page found c ≡ none
    unfolding paging_loop
    loop-endless items serves full zero page found c = refl
    loop-endless items serves full (suc fuel) page found c =
        let (c', sent, step) =
          round-full fuel page found (items page) c (serves page) (full page) in
        step ∙ loop-endless items serves full fuel (page + 1) (found ++ items page) c'

    -- From a service that answers every page of a list, each at the first request, the fetch returns
    -- the list, complete and in order, after one request for each full page and one for the rest; more
    -- rounds than full pages are enough fuel.
    pub fetch_paginated-all :
        (rows : List A) (extra : ℕ) (c : Connection)
        → ((k : ℕ) → Serves (suc k) (page_of rows k))
        → (c' : Connection) × (c'.sent ≡ c.sent + length rows / page_size + 1)
          × (fetch_paginated service page_size (length rows / page_size + suc extra) c
              ≡ some (fetched rows, c'))
    unfolding fetch_paginated
    fetch_paginated-all rows extra c serves =
        let q = length rows / page_size in
        let below : q * page_size ≤ length rows = div-mul-le_self (length rows) page_size in
        let above : length rows < q * page_size + page_size =
          lt-div-mul-add {a = length rows} {b = page_size} positive in
        let none_yet : 0 * page_size ≡ 0 = omega arith in
        let start : 0 + q ≡ q = omega arith in
        let (c₁, sent₁, full) =
          full_pages rows q 0 (suc extra) c (λ k lt. serves k) (rw start below) in
        let short : length (page_of rows q) < page_size =
          rw (page-length rows q) (omega (arith, above, positive)) in
        let (c₂, sent₂, last) =
          round-short extra (suc q) (take (q * page_size) rows) (page_of rows q) c₁ (serves q)
            short in
        let all : take (q * page_size) rows ++ page_of rows q ≡ rows =
          page-joins rows q ∙ take_all (suc q * page_size) rows (omega (arith, above)) in
        (c₂, omega (arith, sent₁, sent₂), rw (none_yet, start) at full ∙ last ∙ rw all refl)

    -- If a page after full ones fails for good, the pages before it are returned as if they were all.
    pub fetch_paginated-truncated :
        (rows : List A) (count extra : ℕ) (e : LastError) (c : Connection)
        → ((k : ℕ) → k < count → Serves (suc k) (page_of rows k))
        → count * page_size ≤ length rows
        → ((x : Connection) → (fetch service (suc count) x).0 ≡ connector_error e)
        → (c' : Connection) × (fetch_paginated service page_size (count + suc extra) c
            ≡ some (fetched (take (count * page_size) rows), c'))
    unfolding fetch_paginated
    fetch_paginated-truncated rows count extra e c serves le fails =
        let none_yet : 0 * page_size ≡ 0 = omega arith in
        let start : 0 + count ≡ count = omega arith in
        let (c₁, sent₁, full) =
          full_pages rows count 0 (suc extra) c (λ k lt. serves k (omega arith)) (rw start le) in
        (
          (fetch service (suc count) c₁).1,
          rw (none_yet, start) at full ∙ round-fails extra (suc count) _ c₁ e (fails c₁),
        )

    -- Against a service that has a full page for every number, no fuel is enough: the loop has no
    -- bound of its own.
    pub fetch_paginated-endless :
        (fuel : ℕ) (c : Connection) (items : ℕ → List A)
        → ((page : ℕ) → Serves page (items page))
        → ((page : ℕ) → page_size ≤ length (items page))
        → fetch_paginated service page_size fuel c ≡ none
    unfolding fetch_paginated
    fetch_paginated-endless fuel c items serves full = loop-endless items serves full fuel 1 [] c
