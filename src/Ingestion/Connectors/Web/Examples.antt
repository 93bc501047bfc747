-- ===== src/Ingestion/Connectors/Web/Examples.antt =====
-- The crawl of a small site.
use osint_platform_core.Base.{
  ℕ, String, true, false, Option, none, some, List, [], ◌∷◌, ◌≡◌, refl, map, str_eq, if◌then◌else◌,
}
use osint_platform_core.Base.Json.{insert}
use osint_platform_core.Ingestion.Connectors.Web.{
  Web, http_error, html, Crawl, scrape_with_depth, new_scraper,
}
use osint_platform_core.Ingestion.Connectors.Web.Politeness.{IsPolite, scrape_with_depth-IsPolite}

-- Two pages of one host, a link to another host, and a page that robots.txt closes.
abbrev site : Web
site = record {
  base_url = λ url. "https://a.org";
  netloc = λ url. if str_eq url "https://b.org/" then "b.org" else "a.org";
  is_http = λ url. true;
  fetch_robots = λ base url. some (if str_eq url "https://a.org/closed" then false else true);
  redirects = λ url. if str_eq url "https://a.org/x" then "https://c.org/" ∷ [] else [];
  parses = λ url. true;
  get = λ url.
      if str_eq url "https://a.org/"
      then html "home" "" ("https://b.org/" ∷ "https://a.org/x" ∷ "https://a.org/closed" ∷ [])
      else if str_eq url "https://a.org/x"
      then html "x" "" ("https://a.org/" ∷ [])
      else http_error;
}

abbrev urls : Option Crawl → List String
urls none = []
urls (some c) = map (λ p. p.url) c.results

crawl_of_site :
    urls (scrape_with_depth site 10 "https://a.org/" 10 (new_scraper true 1))
    ≡ "https://a.org/" ∷ "https://a.org/x" ∷ "https://a.org/closed" ∷ []
unfolding scrape_with_depth insert
crawl_of_site = refl

-- The client followed the redirect of a page to another host, whose robots.txt was not asked.
abbrev followed : Option Crawl → List String
followed none = []
followed (some c) = c.scraper.redirected

redirect_of_site :
    followed (scrape_with_depth site 10 "https://a.org/" 10 (new_scraper true 1))
    ≡ "https://c.org/" ∷ []
unfolding scrape_with_depth insert
redirect_of_site = refl

scrape_with_depth-IsPolite_example :
    (fuel : ℕ) × (r : Crawl) × (scrape_with_depth site fuel "https://a.org/" 10 (new_scraper true 1)
      ≡ some r)
    × IsPolite site (new_scraper true 1) "a.org" 10 r
scrape_with_depth-IsPolite_example = scrape_with_depth-IsPolite site "https://a.org/" 10 true 1
