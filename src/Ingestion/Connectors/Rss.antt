-- ===== src/Ingestion/Connectors/Rss.antt =====
-- backend/ingestion/connectors/rss_connector.py: the conditional fetch of a feed, and its entries.
use osint_platform_core.Base.{
  ℕ, String, Bool, Option, none, some, List, [], ◌∷◌, ◌==◌, not, map, keep, if◌then◌else◌, ◌&&◌,
  is_nil,
}
use osint_platform_core.Base.Text.{is_empty}
use osint_platform_core.Base.Json.{Value, null, text, array, Items, nil, cons}
use osint_platform_core.Ingestion.Records.{Dict}

-- An entry as feedparser gives it; an attribute may be missing. `content` is the value of the first
-- content.
pub record RawEntry : Type 0 where
  pub id : Option String
  pub title : Option String
  pub link : Option String
  pub summary : Option String
  pub author : Option String
  pub content : Option String
  pub tags : List String
  pub published : Option String
  pub updated : Option String

-- The answer to a GET: a network error, a status without a feed, or a feed with its headers, of
-- which feedparser says whether it is malformed.
pub data FeedReply : Type 0 where
  network_error : FeedReply
  status : (status_code : ℕ) → FeedReply
  feed :
      (etag : Option String)
      → (last_modified : Option ℕ) → (bozo : Bool) → List RawEntry
      → FeedReply

-- httpx, feedparser and the site, and the dates of the standard library.
pub record FeedReader : Type 0 where
  pub get :
      (url : String) → (if_modified_since : Option ℕ) → (if_none_match : Option String) → FeedReply
  pub parse_date : String → Option ℕ
  pub isoformat : ℕ → String

pub data FeedResult : Type 0 where
  rss_error : FeedResult
  not_modified : FeedResult
  fetched_feed : (entries : List Dict) → (etag : Option String) → (modified : Option ℕ) → FeedResult

-- `getattr(entry, name, "")`
abbrev pub or_empty : Option String → String
or_empty none = ""
or_empty (some s) = s

abbrev first_of : String → String → String
first_of s t = if is_empty s then t else s

abbrev pub or_none : Option ℕ → Option ℕ → Option ℕ
or_none none o = o
or_none (some t) o = some t

abbrev texts : List String → Items
texts [] = nil
texts (s ∷ ss) = cons (text s) (texts ss)

-- `if etag`
abbrev pub given : Option String → Option String
given none = none
given (some s) = if is_empty s then none else some s

module _ (reader : FeedReader) where
  date_text : Option ℕ → Value
  date_text none = null
  date_text (some t) = text (reader.isoformat t)

  date_value : Option String → Value
  unfolding date_text
  date_value none = null
  date_value (some s) = date_text (reader.parse_date s)

  pub parse_entry : (feed_url : String) → RawEntry → Dict
  unfolding date_value
  parse_entry feed_url e =
      ("id", text (first_of (or_empty e.id) (or_empty e.link)))
      ∷ ("title", text (or_empty e.title))
      ∷ ("url", text (or_empty e.link))
      ∷ ("published", date_value e.published)
      ∷ ("updated", date_value e.updated)
      ∷ ("summary", text (or_empty e.summary))
      ∷ ("content", text (or_empty e.content))
      ∷ ("author", text (or_empty e.author))
      ∷ ("tags", array (texts (keep (λ t. not (is_empty t)) e.tags)))
      ∷ ("feed_url", text feed_url)
      ∷ []

  unfoldable pub parse_entries : (feed_url : String) → List RawEntry → List Dict
  unfolding parse_entry
  parse_entries feed_url entries = map (parse_entry feed_url) entries

  unfoldable pub read_reply : (url : String) → (last_modified : Option ℕ) → FeedReply → FeedResult
  unfolding parse_entries
  read_reply url last_modified network_error = rss_error
  read_reply url last_modified (status code) = if code == 304 then not_modified else rss_error
  read_reply url last_modified (feed etag modified bozo entries) =
      if bozo && is_nil entries
      then rss_error
      else fetched_feed (parse_entries url entries) etag (or_none modified last_modified)

  unfoldable pub fetch_feed :
      (url : String) → (last_modified : Option ℕ) → (etag : Option String) → FeedResult
  unfolding read_reply
  fetch_feed url last_modified etag =
      read_reply url last_modified (reader.get url last_modified (given etag))
