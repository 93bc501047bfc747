-- ===== src/Ingestion/Tasks.antt =====
-- backend/ingestion/queue/ingestion_queue.py: the Celery tasks that fetch records and queue them for
-- normalisation. `self.retry` is an outcome: what Celery does with it is not code of the repository.
-- The URL of a source, which the column allows to be null, is taken to be there.
pub mod Polling
pub mod Fetching
pub mod Normalizing
mod Examples
use Prim.Native.Nat.{◌^◌}
use osint_platform_core.Base.{
  ℕ, ◌+◌, ◌*◌, String, Bool, true, false, Option, none, some, List, [], ◌∷◌, ◌++◌, ◌==◌, length,
  if◌then◌else◌,
}
use osint_platform_core.Base.Rows.{find, update}
use osint_platform_core.Base.Text.{is_empty}
use osint_platform_core.Ingestion.Records.{Dict}
use osint_platform_core.Ingestion.Connectors.Rss.{
  FeedReader, FeedResult, rss_error, not_modified, fetched_feed, fetch_feed, given,
}

-- The keys of `Source.config` that the poll reads and writes.
pub record FeedConfig : Type 0 where
  pub last_modified : Option String
  pub etag : Option String
  pub created_by : Option String

pub record Source : Type 0 where
  pub id : ℕ
  pub url : String
  pub is_active : Bool
  pub config : FeedConfig

-- A call of `normalize_and_store_task` that waits at the broker.
pub record NormalizeCall : Type 0 where
  pub records : List Dict
  pub source_id : ℕ
  pub user_id : String

pub record World : Type 0 where
  pub sources : List Source
  pub queue : List NormalizeCall

-- `retry` carries the countdown in seconds.
pub data PollOutcome : Type 0 where
  source_not_found : PollOutcome
  source_inactive : PollOutcome
  not_modified_since : PollOutcome
  processed : (entries_found : ℕ) → PollOutcome
  no_new_entries : PollOutcome
  retry : (countdown : ℕ) → PollOutcome

abbrev pub or_system : Option String → String
or_system none = "system"
or_system (some s) = s

-- `if last_modified_str`, and `datetime.fromisoformat`, of which a ValueError is none
abbrev pub parse_modified : (fromisoformat : String → Option ℕ) → Option String → Option ℕ
parse_modified fromisoformat none = none
parse_modified fromisoformat (some s) = if is_empty s then none else fromisoformat s

abbrev pub new_etag : Option String → FeedConfig → FeedConfig
new_etag none c = c
new_etag (some s) c = if is_empty s then c else record c { etag = some s }

-- `delay` raises if the broker cannot be reached.
unfoldable pub delay : (broker : Bool) → NormalizeCall → World → Option World
delay true call w = some (record w { queue = w.queue ++ call ∷ [] })
delay false call w = none

abbrev pub poll_countdown : (retries : ℕ) → ℕ
poll_countdown retries = 3600 * 2 ^ retries

abbrev queued_or_retry : (retries found : ℕ) → World → Option World → PollOutcome × World
queued_or_retry retries found w none = (retry (poll_countdown retries), w)
queued_or_retry retries found w (some w') = (processed found, w')

unfoldable pub queue_entries :
    (broker : Bool)
    → (retries : ℕ) → (source_id : ℕ) → Source
    → List Dict
    → World
    → PollOutcome × World
unfolding delay
queue_entries broker retries source_id source [] w = (no_new_entries, w)
queue_entries broker retries source_id source (e ∷ es) w =
    queued_or_retry retries (length (e ∷ es)) w (
      delay broker
        (record {
          records = e ∷ es;
          source_id = source_id;
          user_id = or_system source.config.created_by;
        })
        w)

module _ (reader : FeedReader) where
  abbrev pub new_modified : Option ℕ → FeedConfig → FeedConfig
  new_modified none c = c
  new_modified (some t) c = record c { last_modified = some (reader.isoformat t) }

  -- The second session.
  unfoldable pub store_validators :
      (source_id : ℕ) → (etag : Option String) → (modified : Option ℕ) → World → World
  store_validators source_id etag modified w = record w {
    sources =
        update (λ s. s.id == source_id)
          (λ s. record s { config = new_modified modified (new_etag etag s.config) }) w.sources;
  }

  unfoldable pub poll_result :
      (broker : Bool)
      → (retries : ℕ) → (source_id : ℕ) → Source
      → FeedResult
      → World
      → PollOutcome × World
  unfolding queue_entries store_validators
  poll_result broker retries source_id source rss_error w = (retry (poll_countdown retries), w)
  poll_result broker retries source_id source not_modified w = (not_modified_since, w)
  poll_result broker retries source_id source (fetched_feed entries etag modified) w =
      queue_entries broker retries source_id source entries
        (store_validators source_id etag modified w)

  module _ (fromisoformat : String → Option ℕ) where
    unfoldable pub poll_source :
        (broker : Bool)
        → (retries : ℕ) → (source_id : ℕ) → Option Source
        → World
        → PollOutcome × World
    unfolding poll_result fetch_feed
    poll_source broker retries source_id none w = (source_not_found, w)
    poll_source broker retries source_id (some source) w =
        if source.is_active
        then poll_result broker retries source_id source
            (fetch_feed reader source.url (parse_modified fromisoformat source.config.last_modified)
              source.config.etag)
            w
        else (source_inactive, w)

    unfoldable pub poll_rss_feed_task :
        (broker : Bool) → (retries : ℕ) → (source_id : ℕ) → World → PollOutcome × World
    unfolding poll_source
    poll_rss_feed_task broker retries source_id w =
        poll_source broker retries source_id (find (λ s. s.id == source_id) w.sources) w
