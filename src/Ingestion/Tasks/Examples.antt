-- ===== src/Ingestion/Tasks/Examples.antt =====
-- The tasks of backend/ingestion/queue/ingestion_queue.py at concrete inputs.
use osint_platform_core.Base.{
  ℕ, suc, ◌+◌, ◌-◌, ◌*◌, ◌/◌, String, Bool, true, false, Option, none, some, [], ◌∷◌, take, drop,
  length, if◌then◌else◌, str_eq, leb, ◌≡◌, refl, arith, ◌⊎◌,
}
use osint_platform_core.Base.Json.{text}
use osint_platform_core.Base.Http.{ok}
use osint_platform_core.Ingestion.Records.{Dict, Tools}
use osint_platform_core.Ingestion.Store.{Db, Postgres, begun}
use osint_platform_core.Ingestion.Store.Canonical.{IsStored, Refuses}
use osint_platform_core.Ingestion.Processor.Acceptance.{accepted}
use osint_platform_core.Ingestion.Connectors.Rss.{FeedReader, RawEntry, FeedReply, feed, status}
use osint_platform_core.Ingestion.Connectors.Web.{http_error}
use osint_platform_core.Ingestion.Connectors.Api.{list, missing, response, items_of}
use osint_platform_core.Ingestion.Connectors.Api.Paging.{Serves}
use osint_platform_core.Ingestion.Tasks.{
  Source, World, NormalizeCall, retry, not_modified_since, poll_rss_feed_task,
}
use osint_platform_core.Ingestion.Tasks.Polling.{poll_rss_feed_task-once}
use osint_platform_core.Ingestion.Tasks.Fetching.{
  Sites, FetchConfig, queued, ingest_api_source_task,
}
use osint_platform_core.Ingestion.Tasks.Normalizing.{
  normalize_and_store_task, ingest_api_source_task-normalize,
}

abbrev entry : RawEntry
entry = record {
  id = some "1";
  title = some "News";
  link = none;
  summary = none;
  author = none;
  content = none;
  tags = [];
  published = none;
  updated = none;
}

-- A feed with one entry and the ETag "v1".
abbrev answer : Option String → FeedReply
answer none = feed (some "v1") none false (entry ∷ [])
answer (some etag) = if str_eq etag "v1" then status 304 else status 200

abbrev reader : FeedReader
reader = record {
  get = λ url since etag. answer etag;
  parse_date = λ s. none;
  isoformat = λ t. "2024-01-01";
}

abbrev source : Source
source = record {
  id = 7;
  url = "https://a.org/feed";
  is_active = true;
  config = record { last_modified = none; etag = none; created_by = some "3" };
}

abbrev world : World
world = record { sources = source ∷ []; queue = [] }

abbrev fromisoformat : String → Option ℕ
fromisoformat s = none

-- The broker is down at the first attempt: the entry is never queued.
poll_rss_feed_task-once_example :
    let (outcome, w) = poll_rss_feed_task reader fromisoformat false 0 7 world in
    (outcome ≡ retry 3600)
    × (w.queue ≡ [])
    × ((later : Bool) (again : ℕ)
        → poll_rss_feed_task reader fromisoformat later again 7 w ≡ (not_modified_since, w))
poll_rss_feed_task-once_example =
    poll_rss_feed_task-once reader fromisoformat false 0 7 world source "v1" none false entry []
      refl refl refl refl (λ since. refl)

abbrev acme : Dict
acme = ("name", text "ACME") ∷ []

abbrev sites : Sites
sites = record {
  reader = reader;
  web = record {
    base_url = λ url. url;
    netloc = λ url. url;
    is_http = λ url. true;
    fetch_robots = λ base url. some true;
    redirects = λ url. [];
    get = λ url. http_error;
    parses = λ url. true;
  };
  extract = λ t url. [];
  api = λ url. record {
    answer = λ sent n. response 200 missing (list (take 1 (drop ((n - 1) * 1) (acme ∷ acme ∷ []))));
    raises = λ code. leb 400 code;
  };
  as_record = λ body. [];
}

abbrev config : FetchConfig
config = record {
  max_depth = 2;
  max_pages = 10;
  page_size = 1;
  paginated = true;
  created_by = some "3";
}

serves :
    (k : ℕ)
    → Serves 1
        (omega arith)
        (sites.api "https://a.org/feed")
        (suc k)
        (take 1 (drop (k * 1) (acme ∷ acme ∷ [])))
unfolding items_of
serves k = record {
  body = list (take 1 (drop ((suc k - 1) * 1) (acme ∷ acme ∷ [])));
  settled = λ sent. refl;
  same_items = let e : suc k - 1 ≡ k = omega arith in rw e refl;
}

abbrev tools : Tools
tools = record {
  classify_entity = λ raw. "organization";
  clean_entity_data = λ entity_type raw. ok raw;
  repr = λ v. "[]";
  to_float = λ v. ok 1000000;
}

abbrev empty_db : Db
empty_db = record {
  entities = [];
  entity_sources = [];
  relationships = [];
  next_id = 1;
  transaction = begun;
}

abbrev call : NormalizeCall
call = record { records = acme ∷ acme ∷ []; source_id = 7; user_id = "3" }

-- PostgreSQL takes whatever is stored.
abbrev pg : Postgres
pg = record { refuses = λ db. none; refuses_query = λ t n. none }

ingest_api_source_task-normalize_example :
    let (r, after) =
      normalize_and_store_task tools pg (λ user. some 3) (source ∷ []) call none empty_db in
    (ingest_api_source_task sites config (2 / 1 + 1) true 0 7 world
      ≡ some (queued 2, record world { queue = call ∷ [] }))
    × (r.total ≡ 2)
    × ((Refuses pg (accepted tools (acme ∷ acme ∷ [])) empty_db × (after ≡ empty_db))
        ⊎ (IsStored (accepted tools (acme ∷ acme ∷ [])) empty_db after
            × (r.successful ≡ length (accepted tools (acme ∷ acme ∷ [])))))
ingest_api_source_task-normalize_example =
    ingest_api_source_task-normalize sites config tools pg (λ user. some 3) 0 0 7 world source acme
      (acme ∷ []) empty_db (omega arith) refl refl refl serves refl
      (record { canonical = tt; linked = tt })
