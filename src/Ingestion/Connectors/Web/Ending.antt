-- ===== src/Ingestion/Connectors/Web/Ending.antt =====
-- backend/ingestion/connectors/web_scraper.py: the crawl ends.
use mathlib.Core.List.{append-nil, append_assoc}
use osint_platform_core.Base.{
  ℕ, zero, suc, ◌+◌, ◌≤◌, String, Option, none, some, List, [], ◌∷◌, ◌++◌, ltb, map, str_in, ◌≡◌,
  refl, sym, ◌∙◌, arith, All, All-append, All-map, Bool-cases, inl, inr,
}
use osint_platform_core.Ingestion.Connectors.Web.{
  Web, Scraper, Scraping, page, web_scraper_error, raised, Crawl, goes_on, scrape_page, can_fetch,
  cached_robots, next_links, add_page, crawl_step, crawl_loop, scrape_with_depth,
}
use osint_platform_core.Base.Json.{lookup}

module _ (web : Web) where
  max_depth-cached :
      (base : String) (o : Option _) (s : Scraper)
      → (cached_robots web base o s).1.max_depth ≡ s.max_depth
  unfolding cached_robots
  max_depth-cached base none s = refl
  max_depth-cached base (some p) s = refl

  max_depth-can_fetch :
      (url : String) (s : Scraper) → (can_fetch web url s).1.max_depth ≡ s.max_depth
  unfolding can_fetch
  max_depth-can_fetch url s = elim (Bool-cases s.respect_robots) [
    | inl asks ↦
        simp asks (max_depth-cached (web.base_url url) (lookup (web.base_url url) s.robots_cache) s)
    | inr ignores ↦ simp ignores
  ]

  pub max_depth-scrape :
      (url : String) (s : Scraper) → (scrape_page web url s).1.max_depth ≡ s.max_depth
  unfolding scrape_page
  max_depth-scrape url s = elim (Bool-cases (can_fetch web url s).0) [
    | inl allowed ↦ rw allowed (max_depth-can_fetch url s)
    | inr blocked ↦ rw blocked (max_depth-can_fetch url s)
  ]

  -- An entry of the queue is not higher than the depth.
  abbrev pub AreDeep : (depth : ℕ) → List (String × ℕ) → Type 0
  AreDeep depth queue = All (λ q. depth ≤ q.1) queue

  -- A step keeps the queue, puts deeper links behind it, and none at the last level.
  record IsStep (depth : ℕ) (c c' : Crawl) : Type 0 where
    limit : c'.scraper.max_depth ≡ c.scraper.max_depth
    links : List (String × ℕ)
    queued : c'.queue ≡ c.queue ++ links
    deeper : AreDeep (depth + 1) links
    last : c.scraper.max_depth ≤ depth → links ≡ []

  no_links :
      (depth : ℕ) (c c' : Crawl)
      → c'.scraper.max_depth ≡ c.scraper.max_depth
      → c'.queue ≡ c.queue
      → IsStep depth c c'
  no_links depth c c' same h = record {
    limit = same;
    links = [];
    queued = h ∙ sym (append-nil c.queue);
    deeper = tt;
    last = λ le. refl;
  }

  deep_links :
      (depth : ℕ) (links : List String)
      → AreDeep (depth + 1) (map (λ link. (link, depth + 1)) links)
  deep_links depth [] = tt
  deep_links depth (x ∷ xs) = (omega arith, deep_links depth xs)

  add_page-IsStep :
      (base_domain : String) (depth : ℕ) (o : Scraping) (c : Crawl)
      → IsStep depth c (add_page web base_domain depth o c)
  unfolding add_page next_links
  add_page-IsStep base_domain depth web_scraper_error c = no_links depth c c refl refl
  add_page-IsStep base_domain depth raised c = no_links depth c _ refl refl
  add_page-IsStep base_domain depth (page p) c = elim (Bool-cases (ltb depth c.scraper.max_depth)) [
    | inl above ↦ rw above (record {
      limit = refl;
      links = _;
      queued = refl;
      deeper = deep_links depth _;
      last = λ le. absurd (ground (arith, above, le));
    })
    | inr last ↦ rw last (no_links depth c _ refl refl)
  ]

  module _ (base_domain : String) (max_pages : ℕ) where
    crawl_step-IsStep :
        (url : String) (depth : ℕ) (c : Crawl)
        → IsStep depth c (crawl_step web base_domain url depth c)
    unfolding crawl_step
    crawl_step-IsStep url depth c =
        let scraping = (scrape_page web url c.scraper).0 in
        let marked = record c {
          visited = url ∷ c.visited;
          scraper = (scrape_page web url c.scraper).1;
        } in
        let step = add_page-IsStep base_domain depth scraping marked in
        let same = max_depth-scrape url c.scraper in
        elim (Bool-cases (str_in url c.visited)) [
          | inl seen ↦ rw seen (no_links depth c c refl refl)
          | inr new ↦ elim (Bool-cases (ltb c.scraper.max_depth depth)) [
            | inl deep ↦ rw (new, deep) (no_links depth c _ refl refl)
            | inr near ↦
                rw (new, near)
                  (record {
                    limit = step.limit ∙ same;
                    links = step.links;
                    queued = step.queued;
                    deeper = step.deeper;
                    last = λ le. step.last (rw same le);
                  })
          ]
        ]

    abbrev Ends : Crawl → Type 0
    Ends c = (fuel : ℕ) × (r : Crawl) × (crawl_loop web fuel base_domain max_pages c ≡ some r)

    Ends-empty : (c : Crawl) → c.queue ≡ [] → Ends c
    unfolding crawl_loop
    Ends-empty c h = (1, c, simp h)

    Ends-step :
        (url : String) (depth : ℕ) (rest : List (String × ℕ)) (c : Crawl)
        → c.queue ≡ (url, depth) ∷ rest
        → Ends (crawl_step web base_domain url depth (record c { queue = rest }))
        → Ends c
    unfolding crawl_loop
    Ends-step url depth rest c h (fuel, r, done) = elim (Bool-cases (goes_on max_pages c)) [
      | inl more ↦ (suc fuel, r, simp (h, more) done)
      | inr enough ↦ (1, c, simp (h, enough))
    ]

    -- What the step leaves of the queue.
    abbrev after : String → ℕ → List (String × ℕ) → Crawl → Crawl
    after url depth rest c = crawl_step web base_domain url depth (record c { queue = rest })

    -- Below the last level nothing is added.
    Ends-below :
        (queue : List (String × ℕ)) (c : Crawl)
        → c.queue ≡ queue
        → AreDeep (suc c.scraper.max_depth) queue
        → Ends c
    Ends-below [] c h deep = Ends-empty c h
    Ends-below ((url, depth) ∷ rest) c h deep =
        let step = crawl_step-IsStep url depth (record c { queue = rest }) in
        let none_added = step.last (omega (arith, deep.0)) in
        Ends-step url depth rest c h (
          Ends-below rest (after url depth rest c) (step.queued ∙ rw none_added (append-nil rest))
            (simp step.limit deep.1))

    -- If every crawl whose queue lies deeper ends, so does one with some entries before those.
    Ends-level :
        (depth limit : ℕ)
        → ((c : Crawl) → c.scraper.max_depth ≡ limit → AreDeep (suc depth) c.queue → Ends c)
        → (near far : List (String × ℕ)) (c : Crawl) → c.scraper.max_depth ≡ limit
        → c.queue ≡ near ++ far
        → AreDeep depth near
        → AreDeep (suc depth) far
        → Ends c
    Ends-level depth limit deeper [] far c l h first second = deeper c l (rw h second)
    Ends-level depth limit deeper ((url, d) ∷ near) far c l h first second =
        let step = crawl_step-IsStep url d (record c { queue = near ++ far }) in
        Ends-step url d (near ++ far) c h (
          Ends-level depth limit deeper near (far ++ step.links) (after url d (near ++ far) c)
            (step.limit ∙ l) (step.queued ∙ append_assoc near far step.links) first.1
            (All-append _ far step.links second
              (All-map step.links (λ q k. omega (arith, k, first.0)) step.deeper)))

    Ends-from :
        (levels depth : ℕ) (c : Crawl)
        → depth + levels ≡ suc c.scraper.max_depth
        → AreDeep depth c.queue
        → Ends c
    Ends-from zero depth c h deep =
        Ends-below c.queue c refl (All-map c.queue (λ q k. omega (arith, k, h)) deep)
    Ends-from (suc levels) depth c h deep =
        Ends-level depth c.scraper.max_depth
          (λ x same below. Ends-from levels (suc depth) x (omega (arith, h, same)) below) c.queue []
          c refl (sym (append-nil c.queue)) deep tt

  -- Whatever the sites answer, however many pages fail, the crawl ends, by itself or by an exception:
  -- there is fuel that is enough.
  pub scrape_with_depth-ends :
      (start_url : String) (max_pages : ℕ) (s : Scraper)
      → (fuel : ℕ) × (r : Crawl) × (scrape_with_depth web fuel start_url max_pages s ≡ some r)
  unfolding scrape_with_depth
  scrape_with_depth-ends start_url max_pages s =
      Ends-from (web.netloc start_url) max_pages (suc s.max_depth) 0 _ (omega arith)
        (omega arith, tt)
