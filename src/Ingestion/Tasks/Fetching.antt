-- ===== src/Ingestion/Tasks/Fetching.antt =====
-- backend/ingestion/queue/ingestion_queue.py: the tasks that ingest a file, a URL and an API source.
-- The identifier of the source, which the configuration may lack, is taken to be there.
use Prim.Native.Nat.{◌^◌}
use osint_platform_core.Base.{
  ℕ, ◌*◌, String, Bool, true, Option, none, some, List, [], ◌∷◌, ◌++◌, ◌==◌, str_eq, length,
  if◌then◌else◌,
}
use osint_platform_core.Base.Rows.{find}
use osint_platform_core.Ingestion.Records.{Dict}
use osint_platform_core.Ingestion.Connectors.Rss.{
  FeedReader, FeedResult, rss_error, not_modified, fetched_feed, fetch_feed,
}
use osint_platform_core.Ingestion.Connectors.Web.{
  Web, PageData, Crawl, new_scraper, scrape_with_depth,
}
use osint_platform_core.Ingestion.Connectors.Api.{
  Service, Payload, list, Fetched, fetched, connector_error, value_error, Connection, fetch,
  fetch_paginated,
}
use osint_platform_core.Ingestion.Tasks.{World, Source, delay, or_system}

pub data IngestOutcome : Type 0 where
  queued : (records : ℕ) → IngestOutcome
  no_data : IngestOutcome
  source_missing : IngestOutcome
  inactive : IngestOutcome
  retry : (countdown : ℕ) → IngestOutcome

-- What was fetched, or an exception.
pub data Records : Type 0 where
  records : List Dict → Records
  raised : Records

abbrev delayed : (countdown n : ℕ) → World → Option World → IngestOutcome × World
delayed countdown n w none = (retry countdown, w)
delayed countdown n w (some w') = (queued n, w')

-- `open`, and the file connector: no such file, another exception, or records.
pub data FileRead : Type 0 where
  file_not_found : FileRead
  unreadable : FileRead
  parsed : List Dict → FileRead

abbrev file_countdown : (retries : ℕ) → ℕ
file_countdown retries = 60 * 2 ^ retries

-- A file without records is queued as well.
unfoldable pub ingest_file_task :
    (broker : Bool)
    → (retries source_id : ℕ) → (user_id : String) → FileRead
    → World
    → IngestOutcome × World
unfolding delay
ingest_file_task broker retries source_id user_id file_not_found w = (retry 60, w)
ingest_file_task broker retries source_id user_id unreadable w = (retry (file_countdown retries), w)
ingest_file_task broker retries source_id user_id (parsed rows) w =
    delayed (file_countdown retries) (length rows) w
      (delay broker (record { records = rows; source_id = source_id; user_id = user_id }) w)

-- The tail of the tasks for URLs and for API sources.
abbrev url_countdown : (retries : ℕ) → ℕ
url_countdown retries = 300 * 2 ^ retries

unfoldable pub queue_records :
    (broker : Bool)
    → (retries source_id : ℕ) → (user_id : String) → Records
    → World
    → IngestOutcome × World
unfolding delay
queue_records broker retries source_id user_id raised w = (retry (url_countdown retries), w)
queue_records broker retries source_id user_id (records []) w = (no_data, w)
queue_records broker retries source_id user_id (records (r ∷ rs)) w =
    delayed (url_countdown retries) (length (r ∷ rs)) w
      (delay broker (record { records = r ∷ rs; source_id = source_id; user_id = user_id }) w)

abbrev of_feed : FeedResult → Records
of_feed rss_error = raised
of_feed not_modified = records []
of_feed (fetched_feed entries etag modified) = records entries

-- `scraper.extract_entities`, over the text and the URL of each page
unfoldable pub of_pages : (extract : (text url : String) → List Dict) → List PageData → List Dict
of_pages extract [] = []
of_pages extract (p ∷ ps) = extract p.text p.url ++ of_pages extract ps

abbrev pub of_paging : Fetched (List Dict) × Connection → Records
of_paging (fetched rows, c) = records rows
of_paging (connector_error e, c) = raised
of_paging (value_error, c) = raised

abbrev pub new_connection : Connection
new_connection = record { sent = 0; waits = [] }

-- The keys of the configuration, with their defaults filled in; for an API source, that of the source
-- merged with that of the call.
pub record FetchConfig : Type 0 where
  pub max_depth : ℕ
  pub max_pages : ℕ
  pub page_size : ℕ
  pub paginated : Bool
  pub created_by : Option String

-- What a task fetches from: a feed reader, the sites with the extraction of entities, and the API.
pub record Sites : Type 0 where
  pub reader : FeedReader
  pub web : Web
  pub extract : (text url : String) → List Dict
  pub api : (url : String) → Service Dict
  -- a body that is not a list, as one record
  pub as_record : Payload Dict → Dict

module _ (sites : Sites) (config : FetchConfig) where
  abbrev of_crawl : Option Crawl → Option Records
  of_crawl none = none
  of_crawl (some c) =
      some (if c.has_raised then raised else records (of_pages sites.extract c.results))

  abbrev pub paging_records : Option (Fetched (List Dict) × Connection) → Option Records
  paging_records none = none
  paging_records (some r) = some (of_paging r)

  -- none is that the fuel of a loop ran out; an unknown type of source is a `ValueError`.
  unfoldable pub fetch_records : (fuel : ℕ) → (url source_type : String) → Option Records
  unfolding fetch_feed scrape_with_depth of_pages fetch_paginated
  fetch_records fuel url source_type =
      if str_eq source_type "rss"
      then some (of_feed (fetch_feed sites.reader url none none))
      else if str_eq source_type "web"
      then of_crawl (
          scrape_with_depth sites.web fuel url config.max_pages (new_scraper true config.max_depth))
      else if str_eq source_type "api"
      then paging_records (fetch_paginated (sites.api url) config.page_size fuel new_connection)
      else some raised

  abbrev with_records :
      (broker : Bool)
      → (retries source_id : ℕ) → (user_id : String) → World
      → Option Records
      → Option (IngestOutcome × World)
  with_records broker retries source_id user_id w none = none
  with_records broker retries source_id user_id w (some r) =
      some (queue_records broker retries source_id user_id r w)

  unfoldable pub ingest_url_task :
      (fuel : ℕ)
      → (broker : Bool) → (retries source_id : ℕ) → (url source_type user_id : String) → World
      → Option (IngestOutcome × World)
  unfolding fetch_records queue_records
  ingest_url_task fuel broker retries source_id url source_type user_id w =
      with_records broker retries source_id user_id w (fetch_records fuel url source_type)

  abbrev of_body : Fetched (Payload Dict) × Connection → Records
  of_body (fetched (list rows), c) = records rows
  of_body (fetched body, c) = records (sites.as_record body ∷ [])
  of_body (connector_error e, c) = raised
  of_body (value_error, c) = raised

  unfoldable pub fetch_source : (fuel : ℕ) → Source → Option Records
  unfolding fetch_paginated fetch
  fetch_source fuel source =
      if config.paginated
      then paging_records
          (fetch_paginated (sites.api source.url) config.page_size fuel new_connection)
      else some (of_body (fetch (sites.api source.url) 1 new_connection))

  unfoldable pub ingest_found :
      (fuel : ℕ)
      → (broker : Bool) → (retries source_id : ℕ) → World
      → Option Source
      → Option (IngestOutcome × World)
  unfolding fetch_source queue_records
  ingest_found fuel broker retries source_id w none = some (source_missing, w)
  ingest_found fuel broker retries source_id w (some source) =
      if source.is_active
      then with_records broker retries source_id (or_system config.created_by) w
          (fetch_source fuel source)
      else some (inactive, w)

  unfoldable pub ingest_api_source_task :
      (fuel : ℕ)
      → (broker : Bool) → (retries source_id : ℕ) → World
      → Option (IngestOutcome × World)
  unfolding ingest_found
  ingest_api_source_task fuel broker retries source_id w =
      ingest_found fuel broker retries source_id w (find (λ s. s.id == source_id) w.sources)
