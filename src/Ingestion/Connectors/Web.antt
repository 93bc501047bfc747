-- ===== src/Ingestion/Connectors/Web.antt =====
-- backend/ingestion/connectors/web_scraper.py: robots.txt with its cache, the scraping of one page,
-- and the breadth-first crawl. Each site answers a URL in the same way during a crawl.
pub mod Ending
pub mod Robots
pub mod Politeness
mod Examples
use osint_platform_core.Base.{
  ℕ, zero, suc, ◌+◌, String, Bool, true, false, Option, none, some, List, [], ◌∷◌, ◌++◌, ltb, not,
  keep, map, length, str_in, str_eq, if◌then◌else◌, ◌&&◌, ◌||◌,
}
use osint_platform_core.Base.Json.{Dictionary, lookup, insert}

-- `RobotFileParser.can_fetch`, none where it raises.
abbrev pub RobotFileParser : Type 0
RobotFileParser = String → Option Bool

-- What a GET and the reading of its answer give: an `httpx.HTTPError`, which an error status is too, an
-- exception of another class (`httpx.InvalidURL`, or the ValueError of urljoin for an anchor), a page,
-- or a body that is not text.
pub data Reply : Type 0 where
  http_error : Reply
  other_error : Reply
  html : (title text : String) → (hrefs : List String) → Reply
  other_content : Reply

-- urllib, httpx and the sites: the base and the host of a URL, whether its scheme is http or https,
-- robots.txt of a base, and the answer to a GET; `hrefs` are the anchors, joined with the URL. The
-- client follows redirects, so that a GET requests further URLs. `parses` is that urlparse accepts.
pub record Web : Type 0 where
  pub base_url : String → String
  pub netloc : String → String
  pub is_http : String → Bool
  pub fetch_robots : (base : String) → RobotFileParser
  pub redirects : (url : String) → List String
  pub get : (url : String) → Reply
  pub parses : String → Bool

-- The scraper with its settings, its cache, the URLs of the pages that it has asked its client for, the
-- last one first, and those that the client requested to follow redirects.
pub record Scraper : Type 0 where
  pub respect_robots : Bool
  pub max_depth : ℕ
  pub robots_cache : Dictionary RobotFileParser
  pub requested : List String
  pub redirected : List String

-- `__init__`
abbrev pub new_scraper : (respect_robots : Bool) → (max_depth : ℕ) → Scraper
new_scraper respect_robots max_depth = record {
  respect_robots = respect_robots;
  max_depth = max_depth;
  robots_cache = [];
  requested = [];
  redirected = [];
}

pub record PageData : Type 0 where
  pub url : String
  pub blocked_by_robots : Bool
  pub title : Option String
  pub text : String
  pub links : List String
  pub depth : ℕ

-- What the scraping of a page comes to; `raised` is an exception that is no `WebScraperError`.
pub data Scraping : Type 0 where
  page : PageData → Scraping
  web_scraper_error : Scraping
  raised : Scraping

abbrev or_true : Option Bool → Bool
or_true none = true
or_true (some b) = b

-- `list(set(links))`: each once
unfoldable pub unique : List String → List String
unique [] = []
unique (x ∷ xs) = x ∷ keep (λ y. not (str_eq y x)) (unique xs)

-- `depth` is filled in by the crawl.
abbrev pub empty_page : String → (blocked : Bool) → PageData
empty_page url blocked = record {
  url = url;
  blocked_by_robots = blocked;
  title = none;
  text = "";
  links = [];
  depth = 0;
}

-- The variables of the crawl, and whether an exception has ended it.
pub record Crawl : Type 0 where
  pub visited : List String
  pub results : List PageData
  pub queue : List (String × ℕ)
  pub scraper : Scraper
  pub has_raised : Bool

-- `while queue`, and `popleft`
abbrev pub on_queue :
    List (String × ℕ)
    → (stop : Option Crawl) → (more : String → ℕ → List (String × ℕ) → Option Crawl) → Option Crawl
on_queue [] stop more = stop
on_queue ((url, depth) ∷ rest) stop more = more url depth rest

-- `len(results) < max_pages`, where no exception has ended the loop
abbrev pub goes_on : (max_pages : ℕ) → Crawl → Bool
goes_on max_pages c = ltb (length c.results) max_pages && not c.has_raised

module _ (web : Web) where
  -- The parser from the cache, which is filled if need be.
  unfoldable pub cached_robots :
      (base : String) → Option RobotFileParser → Scraper → RobotFileParser × Scraper
  cached_robots base (some parser) s = (parser, s)
  cached_robots base none s =
      let parser = web.fetch_robots base in
      (parser, record s { robots_cache = insert base parser s.robots_cache })

  unfoldable pub can_fetch : (url : String) → Scraper → Bool × Scraper
  unfolding cached_robots lookup insert
  can_fetch url s =
      let base = web.base_url url in
      let (parser, s') = cached_robots base (lookup base s.robots_cache) s in
      if s.respect_robots then (or_true (parser url), s') else (true, s)

  unfoldable pub page_of : String → Reply → Scraping
  unfolding unique
  page_of url http_error = web_scraper_error
  page_of url other_error = raised
  page_of url other_content = page (empty_page url false)
  page_of url (html title text hrefs) = page (record {
    url = url;
    blocked_by_robots = false;
    title = some title;
    text = text;
    links = unique (keep web.is_http hrefs);
    depth = 0;
  })

  unfoldable pub scrape_page : (url : String) → Scraper → Scraping × Scraper
  unfolding can_fetch page_of
  scrape_page url s =
      let (allowed, s') = can_fetch url s in
      if allowed
      then (
        page_of url (web.get url),
        record s' {
          requested = url ∷ s'.requested;
          redirected = web.redirects url ++ s'.redirected;
        },
      )
      else (page (empty_page url true), s')

  -- The links of a page that are put into the queue.
  unfoldable pub next_links :
      (base_domain : String) → List String → PageData → ℕ → List (String × ℕ)
  next_links base_domain visited p depth =
      map (λ link. (link, depth + 1))
        (keep (λ link. str_eq (web.netloc link) base_domain && not (str_in link visited)) p.links)

  unfoldable pub add_page : (base_domain : String) → (depth : ℕ) → Scraping → Crawl → Crawl
  unfolding next_links
  add_page base_domain depth web_scraper_error c = c
  add_page base_domain depth raised c = record c { has_raised = true }
  add_page base_domain depth (page p) c = record c {
    results = c.results ++ record p { depth = depth } ∷ [];
    queue =
        if ltb depth c.scraper.max_depth
        then c.queue ++ next_links base_domain c.visited p depth
        else c.queue;
  }

  -- The body of the loop, after `popleft`.
  unfoldable pub crawl_step : (base_domain url : String) → (depth : ℕ) → Crawl → Crawl
  unfolding add_page scrape_page
  crawl_step base_domain url depth c =
      let marked = record c { visited = url ∷ c.visited } in
      let (scraping, scraper) = scrape_page url c.scraper in
      if str_in url c.visited
      then c
      else if ltb c.scraper.max_depth depth
      then marked
      else add_page base_domain depth scraping (record marked { scraper = scraper })

  -- none is that the fuel ran out.
  pub crawl_loop : (fuel : ℕ) → (base_domain : String) → (max_pages : ℕ) → Crawl → Option Crawl
  unfolding crawl_step
  crawl_loop zero base_domain max_pages c = none
  crawl_loop (suc fuel) base_domain max_pages c = on_queue c.queue (some c) (λ url depth rest.
      let next =
        crawl_loop fuel base_domain max_pages
          (crawl_step base_domain url depth (record c { queue = rest })) in
      if goes_on max_pages c then next else some c)

  unfoldable pub scrape_with_depth :
      (fuel : ℕ) → (start_url : String) → (max_pages : ℕ) → Scraper → Option Crawl
  unfolding crawl_loop
  scrape_with_depth fuel start_url max_pages s =
      crawl_loop fuel (web.netloc start_url) max_pages (record {
        visited = [];
        results = [];
        queue = (start_url, 0) ∷ [];
        scraper = s;
        has_raised = not (web.parses start_url);
      })
