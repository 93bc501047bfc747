-- ===== src/Ingestion/Connectors/Web/Politeness.antt =====
-- backend/ingestion/connectors/web_scraper.py: which pages the crawl requests and returns.
use mathlib.Core.Path.{subst}
use osint_platform_core.Base.{
  ℕ, zero, suc, ◌+◌, ◌≤◌, ◌<◌, String, Bool, true, false, some, List, [], ◌∷◌, ltb, not, keep, map,
  length, length-append, str_in, str_eq, ◌&&◌, ◌≡◌, refl, ◌∙◌, arith, All, All-append, All-map,
  Bool-cases, inl, inr, ◌⊎◌, str_eq_iff, str_eq_comm, str_eq_refl, ltb→lt,
}
use osint_platform_core.Base.Apart.{AreApart, AreApart_snoc}
use osint_platform_core.Base.Json.{lookup}
use osint_platform_core.Ingestion.Connectors.Web.{
  Web, Scraper, PageData, Scraping, page, web_scraper_error, raised, Crawl, goes_on, scrape_page,
  next_links, add_page, crawl_step, crawl_loop, scrape_with_depth, new_scraper,
}
use osint_platform_core.Ingestion.Connectors.Web.Ending.{max_depth-scrape, scrape_with_depth-ends}
use osint_platform_core.Ingestion.Connectors.Web.Robots.{IsHonest, IsScraped, scrape_page-IsScraped}

module _ (web : Web) where
  -- The state of the crawl, for pages of one host, at most so many of them.
  pub record IsPolite (settings : Scraper) (base_domain : String) (max_pages : ℕ) (c : Crawl)
      : Type 0 where
    pub rules : c.scraper.respect_robots ≡ settings.respect_robots
    pub limit : c.scraper.max_depth ≡ settings.max_depth
    pub few : length c.results ≤ max_pages
    pub shallow : All (λ p. p.depth ≤ c.scraper.max_depth) c.results
    pub at_home : All (λ p. web.netloc p.url ≡ base_domain) c.results
    pub queued : All (λ q. web.netloc q.0 ≡ base_domain) c.queue
    pub seen : All (λ p. str_in p.url c.visited ≡ true) c.results
    pub distinct : AreApart (λ p q. str_eq p.url q.url) c.results
    pub honest : IsHonest web c.scraper
    pub asked : All (λ u. str_in u c.visited ≡ true) c.scraper.requested
    pub asked_once : AreApart str_eq c.scraper.requested

  module _ (settings : Scraper) (base_domain : String) (max_pages : ℕ) where
    abbrev Polite : Crawl → Type 0
    Polite c = IsPolite settings base_domain max_pages c

    home-keep :
        (visited links : List String)
        → All
            (λ link. web.netloc link ≡ base_domain)
            (keep (λ link. str_eq (web.netloc link) base_domain && not (str_in link visited)) links)
    home-keep visited [] = tt
    home-keep visited (x ∷ xs) =
        elim (Bool-cases (str_eq (web.netloc x) base_domain && not (str_in x visited))) [
          | inl kept ↦
              let same : str_eq (web.netloc x) base_domain ≡ true = ground (arith, kept) in
              rw kept ((str_eq_iff (web.netloc x) base_domain).0 same, home-keep visited xs)
          | inr dropped ↦ rw dropped (home-keep visited xs)
        ]

    home-map :
        (depth : ℕ) (links : List String)
        → All (λ link. web.netloc link ≡ base_domain) links
        → All (λ (q : String × ℕ). web.netloc q.0 ≡ base_domain) (map (λ link. (link, depth)) links)
    home-map depth [] h = tt
    home-map depth (x ∷ xs) h = (h.0, home-map depth xs h.1)

    links-at_home :
        (visited : List String) (p : PageData) (depth : ℕ)
        → All
            (λ (q : String × ℕ). web.netloc q.0 ≡ base_domain)
            (next_links web base_domain visited p depth)
    unfolding next_links
    links-at_home visited p depth = home-map (depth + 1) _ (home-keep visited p.links)

    same_but_raised : (c : Crawl) → Polite c → Polite (record c { has_raised = true })
    same_but_raised c h = record {
      rules = h.rules;
      limit = h.limit;
      few = h.few;
      shallow = h.shallow;
      at_home = h.at_home;
      queued = h.queued;
      seen = h.seen;
      distinct = h.distinct;
      honest = h.honest;
      asked = h.asked;
      asked_once = h.asked_once;
    }

    add_page-IsPolite :
        (url : String) (depth : ℕ) (o : Scraping) (c : Crawl)
        → length c.results < max_pages
        → depth ≤ c.scraper.max_depth
        → web.netloc url ≡ base_domain
        → str_in url c.visited ≡ true
        → All (λ p. str_eq p.url url ≡ false) c.results
        → ((p : PageData) → o ≡ page p → p.url ≡ url)
        → Polite c
        → Polite (add_page web base_domain depth o c)
    unfolding add_page
    add_page-IsPolite url depth web_scraper_error c room shallow home seen new named h = h
    add_page-IsPolite url depth raised c room shallow home seen new named h = same_but_raised c h
    add_page-IsPolite url depth (page p) c room shallow home seen new named h =
        let same = named p refl in
        let row = record p { depth = depth } in
        record {
          rules = h.rules;
          limit = h.limit;
          few = rw (length-append c.results (row ∷ [])) (omega arith);
          shallow = All-append _ c.results _ h.shallow (shallow, tt);
          at_home = All-append _ c.results _ h.at_home (rw same home, tt);
          queued = elim (Bool-cases (ltb depth c.scraper.max_depth)) [
            | inl above ↦
                rw above (All-append _ c.queue _ h.queued (links-at_home c.visited p depth))
            | inr last ↦ rw last h.queued
          ];
          seen = All-append _ c.results _ h.seen (rw same seen, tt);
          distinct =
              AreApart_snoc _ row c.results (All-map c.results (λ q k. rw same k) new) h.distinct;
          honest = h.honest;
          asked = h.asked;
          asked_once = h.asked_once;
        }

    -- A URL that was not visited is not among those that were.
    not_visited :
        (url : String) (visited us : List String)
        → str_in url visited ≡ false
        → All (λ u. str_in u visited ≡ true) us
        → All (λ u. str_eq u url ≡ false) us
    not_visited url visited us new h =
        All-map us
          (λ u k. elim (Bool-cases (str_eq u url)) [
            | inl same ↦ let e = (str_eq_iff u url).0 same in let k' = rw e at k in cc
            | inr other ↦ other
          ])
          h

    still_seen :
        (u url : String) (visited : List String)
        → str_in u visited ≡ true
        → str_in u (url ∷ visited) ≡ true
    still_seen u url visited h = ground (arith, h)

    -- After the page was scraped, and its URL marked as visited.
    marked-IsPolite :
        (url : String) (o : Scraping) (s : Scraper) (c : Crawl)
        → str_in url c.visited ≡ false
        → s.max_depth ≡ c.scraper.max_depth
        → IsScraped web url c.scraper o s
        → Polite c
        → Polite (record c { visited = url ∷ c.visited; scraper = s })
    marked-IsPolite url o s c new same scraped h =
        let self : str_in url (url ∷ c.visited) ≡ true = rw (str_eq_refl url) refl in
        let old = All-map c.scraper.requested (λ u k. still_seen u url c.visited k) h.asked in
        record {
          rules = scraped.rules ∙ h.rules;
          limit = same ∙ h.limit;
          few = h.few;
          shallow = rw same h.shallow;
          at_home = h.at_home;
          queued = h.queued;
          seen = All-map c.results (λ p k. still_seen p.url url c.visited k) h.seen;
          distinct = h.distinct;
          honest = scraped.honest;
          asked = elim scraped.asked [ inl e ↦ rw e old | inr e ↦ rw e (self, old) ];
          asked_once = elim scraped.asked [
            | inl e ↦ rw e h.asked_once
            | inr e ↦ rw e (
              All-map c.scraper.requested (λ u k. str_eq_comm url u ∙ k)
                  (not_visited url c.visited c.scraper.requested new h.asked),
              h.asked_once,
            )
          ];
        }

    new_page :
        (url : String) (visited : List String) (ps : List PageData)
        → str_in url visited ≡ false
        → All (λ p. str_in p.url visited ≡ true) ps
        → All (λ p. str_eq p.url url ≡ false) ps
    new_page url visited [] new h = tt
    new_page url visited (p ∷ ps) new h =
        ((not_visited url visited (p.url ∷ []) new (h.0, tt)).0, new_page url visited ps new h.1)

    crawl_step-IsPolite :
        (url : String) (depth : ℕ) (c : Crawl)
        → length c.results < max_pages
        → web.netloc url ≡ base_domain
        → Polite c
        → Polite (crawl_step web base_domain url depth c)
    unfolding crawl_step
    crawl_step-IsPolite url depth c room home h =
        let o = (scrape_page web url c.scraper).0 in
        let s = (scrape_page web url c.scraper).1 in
        let same = max_depth-scrape web url c.scraper in
        let scraped = scrape_page-IsScraped web url c.scraper h.honest in
        elim (Bool-cases (str_in url c.visited)) [
          | inl seen ↦ rw seen h
          | inr new ↦ elim (Bool-cases (ltb c.scraper.max_depth depth)) [
            | inl deep ↦
                rw (new, deep)
                  (marked-IsPolite url web_scraper_error c.scraper c new refl
                    (record {
                      honest = h.honest;
                      rules = refl;
                      asked = inl refl;
                      named = λ p e. cc;
                    })
                    h)
            | inr near ↦
                rw (new, near)
                  (add_page-IsPolite url depth o
                    (record c { visited = url ∷ c.visited; scraper = s }) room
                    (rw same (ground (arith, near))) home (rw (str_eq_refl url) refl)
                    (new_page url c.visited c.results new h.seen) scraped.named
                    (marked-IsPolite url o s c new same scraped h))
          ]
        ]

    Queue-cases :
        (queue : List (String × ℕ))
        → (queue ≡ [])
          ⊎ ((url : String) × (depth : ℕ) × (rest : List (String × ℕ)) × (queue
                ≡ (url, depth) ∷ rest))
    Queue-cases [] = inl refl
    Queue-cases ((url, depth) ∷ rest) = inr (url, depth, rest, refl)

    without_first :
        (url : String) (depth : ℕ) (rest : List (String × ℕ)) (c : Crawl)
        → c.queue ≡ (url, depth) ∷ rest
        → Polite c
        → (web.netloc url ≡ base_domain) × Polite (record c { queue = rest })
    without_first url depth rest c e h =
        let queued : All (λ (q : String × ℕ). web.netloc q.0 ≡ base_domain) ((url, depth) ∷ rest) =
          subst (λ qs. All (λ (q : String × ℕ). web.netloc q.0 ≡ base_domain) qs) e h.queued in
        (
          queued.0,
          record {
            rules = h.rules;
            limit = h.limit;
            few = h.few;
            shallow = h.shallow;
            at_home = h.at_home;
            queued = queued.1;
            seen = h.seen;
            distinct = h.distinct;
            honest = h.honest;
            asked = h.asked;
            asked_once = h.asked_once;
          },
        )

    crawl_loop-IsPolite :
        (fuel : ℕ) (c r : Crawl)
        → Polite c
        → crawl_loop web fuel base_domain max_pages c ≡ some r
        → Polite r
    unfolding crawl_loop
    crawl_loop-IsPolite zero c r h e = cc
    crawl_loop-IsPolite (suc fuel) c r h e = elim (Queue-cases c.queue) [
      | inl empty ↦
          let stopped : some c ≡ some r = simp empty at e in subst (λ x. Polite x) (cc stopped) h
      | inr (url, depth, rest, first) ↦ elim (Bool-cases (goes_on max_pages c)) [
        | inl more ↦
            let (home, left) = without_first url depth rest c first h in
            crawl_loop-IsPolite fuel _ r
              (crawl_step-IsPolite url depth (record c { queue = rest })
                (ltb→lt _ _ (ground (arith, more))) home left)
              (simp (first, more) at e)
        | inr enough ↦
            let stopped : some c ≡ some r = simp (first, enough) at e in
            subst (λ x. Polite x) (cc stopped) h
      ]
    ]

  -- Whatever the sites answer, the crawl of a new scraper ends, by itself or by an exception, and then:
  -- it has `max_pages` pages at most, each of another URL, all of the start's host, none deeper than
  -- `max_depth`; it asked its client for no page twice, and, if it respects robots.txt, only for those
  -- that the file of the URL's own base permits. What the client requests to follow a redirect is not
  -- asked for, and not among these.
  pub scrape_with_depth-IsPolite :
      (start_url : String) (max_pages : ℕ) (respect_robots : Bool) (max_depth : ℕ)
      → let s = new_scraper respect_robots max_depth in
        (fuel : ℕ) × (r : Crawl) × (scrape_with_depth web fuel start_url max_pages s ≡ some r)
        × IsPolite s (web.netloc start_url) max_pages r
  unfolding scrape_with_depth lookup
  scrape_with_depth-IsPolite start_url max_pages respect_robots max_depth =
      let s = new_scraper respect_robots max_depth in
      let (fuel, r, ended) = scrape_with_depth-ends web start_url max_pages s in
      (
        fuel,
        r,
        ended,
        crawl_loop-IsPolite s (web.netloc start_url) max_pages fuel _ r
            (record {
              rules = refl;
              limit = refl;
              few = omega arith;
              shallow = tt;
              at_home = tt;
              queued = (refl, tt);
              seen = tt;
              distinct = tt;
              honest = record { cached = λ base p h. cc; permitted = λ h. tt };
              asked = tt;
              asked_once = tt;
            })
            ended,
      )
