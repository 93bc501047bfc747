-- ===== src/Ingestion/Connectors/Web/Robots.antt =====
-- backend/ingestion/connectors/web_scraper.py: the cache of robots.txt, and what the scraping of one
-- page asks for.
use osint_platform_core.Base.{
  String, Bool, true, Option, none, some, ◌∷◌, str_eq, ◌≡◌, refl, sym, ◌∙◌, ap, All, Bool-cases,
  inl, inr, ◌⊎◌, str_eq_iff,
}
use osint_platform_core.Base.Json.{lookup, insert, lookup-insert}
use osint_platform_core.Ingestion.Connectors.Web.{
  Web, Scraper, PageData, RobotFileParser, Scraping, page, web_scraper_error, raised, or_true,
  page_of, Reply, http_error, other_error, html, other_content, scrape_page, can_fetch,
  cached_robots,
}

module _ (web : Web) where
  -- What robots.txt of the URL's own base says; where the parser raises, it is taken as allowed.
  abbrev pub is_permitted : String → Bool
  is_permitted url = or_true (web.fetch_robots (web.base_url url) url)

  pub record IsHonest (s : Scraper) : Type 0 where
    pub cached :
        (base : String) (p : RobotFileParser)
        → lookup base s.robots_cache ≡ some p
        → p ≡ web.fetch_robots base
    pub permitted : s.respect_robots ≡ true → All (λ u. is_permitted u ≡ true) s.requested

  insert-cached :
      (base other : String) (s : Scraper) (p : RobotFileParser)
      → IsHonest s
      → lookup other (insert base (web.fetch_robots base) s.robots_cache) ≡ some p
      → p ≡ web.fetch_robots other
  insert-cached base other s p honest found = elim (Bool-cases (str_eq base other)) [
    | inl same ↦
        let e : base ≡ other = (str_eq_iff base other).0 same in
        let k : some (web.fetch_robots base) ≡ some p = rw (lookup-insert, same) at found in
        rw (← e) (cc k)
    | inr apart ↦ honest.cached other p (rw (lookup-insert, apart) at found)
  ]

  cached_robots_lem :
      (base : String) (o : Option RobotFileParser) (s : Scraper)
      → ((p : RobotFileParser) → o ≡ some p → p ≡ web.fetch_robots base)
      → IsHonest s
      → ((cached_robots web base o s).0 ≡ web.fetch_robots base)
        × IsHonest (cached_robots web base o s).1
  unfolding cached_robots
  cached_robots_lem base (some p) s h honest = (h p refl, honest)
  cached_robots_lem base none s h honest = (
    refl,
    record {
      cached = λ other p found. insert-cached base other s p honest found;
      permitted = honest.permitted;
    },
  )

  can_fetch_lem :
      (url : String) (s : Scraper)
      → IsHonest s
      → (s.respect_robots ≡ true → (can_fetch web url s).0 ≡ is_permitted url)
        × IsHonest (can_fetch web url s).1
  unfolding can_fetch
  can_fetch_lem url s honest =
      let base = web.base_url url in
      let (agrees, kept) =
        cached_robots_lem base (lookup base s.robots_cache) s (honest.cached base) honest in
      elim (Bool-cases s.respect_robots) [
        | inl asks ↦ simp asks ((λ h. ap (λ p. or_true (p url)) agrees), kept)
        | inr ignores ↦ simp ignores ((λ h. cc), honest)
      ]

  same-cached :
      (base : String) (o : Option RobotFileParser) (s : Scraper)
      → ((cached_robots web base o s).1.respect_robots ≡ s.respect_robots)
        × ((cached_robots web base o s).1.requested ≡ s.requested)
  unfolding cached_robots
  same-cached base none s = (refl, refl)
  same-cached base (some p) s = (refl, refl)

  same-can_fetch :
      (url : String) (s : Scraper)
      → ((can_fetch web url s).1.respect_robots ≡ s.respect_robots)
        × ((can_fetch web url s).1.requested ≡ s.requested)
  unfolding can_fetch
  same-can_fetch url s = elim (Bool-cases s.respect_robots) [
    | inl asks ↦
        let c = same-cached (web.base_url url) (lookup (web.base_url url) s.robots_cache) s in
        simp asks (c.0 ∙ asks, c.1)
    | inr ignores ↦ simp ignores (refl, refl)
  ]

  abbrev url_of : Scraping → String
  url_of web_scraper_error = ""
  url_of raised = ""
  url_of (page p) = p.url

  page_of-url : (url : String) (r : Reply) (p : PageData) → page_of web url r ≡ page p → p.url ≡ url
  unfolding page_of
  page_of-url url http_error p h = cc
  page_of-url url other_error p h = cc
  page_of-url url other_content p h = sym (ap url_of h)
  page_of-url url (html title text hrefs) p h = sym (ap url_of h)

  -- What scraping one page does to the scraper.
  pub record IsScraped (url : String) (s : Scraper) (o : Scraping) (s' : Scraper) : Type 0 where
    pub honest : IsHonest s'
    pub rules : s'.respect_robots ≡ s.respect_robots
    pub asked : (s'.requested ≡ s.requested) ⊎ (s'.requested ≡ url ∷ s.requested)
    pub named : (p : PageData) → o ≡ page p → p.url ≡ url

  pub scrape_page-IsScraped :
      (url : String) (s : Scraper)
      → IsHonest s
      → IsScraped url s (scrape_page web url s).0 (scrape_page web url s).1
  unfolding scrape_page
  scrape_page-IsScraped url s honest =
      let (agrees, kept) = can_fetch_lem url s honest in
      let same = same-can_fetch url s in
      elim (Bool-cases (can_fetch web url s).0) [
        | inr blocked ↦ rw blocked (record {
          honest = kept;
          rules = same.0;
          asked = inl same.1;
          named = λ p h. sym (ap url_of h);
        })
        | inl allowed ↦ rw allowed (record {
          honest = record {
            cached = kept.cached;
            permitted = λ h. (sym (agrees (sym same.0 ∙ h)) ∙ allowed, kept.permitted h);
          };
          rules = same.0;
          asked = inr (ap (λ us. url ∷ us) same.1);
          named = λ p h. page_of-url url (web.get url) p h;
        })
      ]
