-- ===== src/Ingestion/Tasks/Polling.antt =====
-- backend/ingestion/queue/ingestion_queue.py, `poll_rss_feed_task`: what becomes of the entries of a
-- feed that has changed.
use osint_platform_core.Base.{
  ℕ, suc, String, Bool, true, false, Option, none, some, List, [], ◌∷◌, ◌++◌, ◌==◌, length,
  if◌then◌else◌, ◌≡◌, refl, ◌∙◌, ap, ◌&&◌, arith,
}
use osint_platform_core.Base.Rows.{find, find-update}
use osint_platform_core.Base.Text.{is_empty}
use osint_platform_core.Ingestion.Records.{Dict}
use osint_platform_core.Ingestion.Connectors.Rss.{
  FeedReader, FeedReply, RawEntry, status, feed, fetch_feed, read_reply, parse_entries, given,
  or_none,
}
use osint_platform_core.Ingestion.Tasks.{
  Source, World, NormalizeCall, retry, processed, not_modified_since, parse_modified,
  store_validators, poll_source, poll_result, queue_entries, delay, poll_rss_feed_task,
  poll_countdown, or_system, new_etag, new_modified,
}

module _ (reader : FeedReader) (fromisoformat : String → Option ℕ) where
  -- The answer to the poll of a source in its present state.
  abbrev pub reply_to : Source → FeedReply
  reply_to source =
      reader.get source.url (parse_modified fromisoformat source.config.last_modified)
        (given source.config.etag)

  stored : (etag : Option String) (modified : Option ℕ) → Source → Source
  stored etag modified s = record s {
    config = new_modified reader modified (new_etag etag s.config);
  }

  store_validators-find :
      (source_id : ℕ) (etag : Option String) (modified : Option ℕ) (w : World) (s : Source)
      → find (λ x. x.id == source_id) w.sources ≡ some s
      → find (λ x. x.id == source_id) (store_validators reader source_id etag modified w).sources
        ≡ some (stored etag modified s)
  unfolding store_validators stored
  store_validators-find source_id etag modified w s h =
      find-update (λ x. x.id == source_id) (stored etag modified) (λ x. refl) w.sources ∙ rw h refl

  abbrev call_for : (source_id : ℕ) → Source → List Dict → NormalizeCall
  call_for source_id s entries = record {
    records = entries;
    source_id = source_id;
    user_id = or_system s.config.created_by;
  }

  queue-validated :
      (source_id : ℕ) (etag : Option String) (modified : Option ℕ) (w : World) (broker : Bool)
      (s : Source) (entries : List Dict)
      → (if broker
          then (store_validators reader source_id etag modified w).queue
            ++ call_for source_id s entries ∷ []
          else (store_validators reader source_id etag modified w).queue)
        ≡ (if broker then w.queue ++ call_for source_id s entries ∷ [] else w.queue)
  unfolding store_validators
  queue-validated source_id etag modified w broker s entries = refl

  -- A poll of a source that is found, active, and answered.
  poll-answered :
      (broker : Bool) (retries : ℕ) (source_id : ℕ) (w : World) (s : Source)
      → find (λ x. x.id == source_id) w.sources ≡ some s
      → s.is_active ≡ true
      → poll_rss_feed_task reader fromisoformat broker retries source_id w
        ≡ poll_result reader broker retries source_id s
            (read_reply reader s.url
              (parse_modified fromisoformat s.config.last_modified)
              (reply_to s))
            w
  unfolding poll_rss_feed_task poll_source fetch_feed
  poll-answered broker retries source_id w s found active = rw found (rw active refl)

  -- The world after some entries were handed to the broker, or were not.
  abbrev handed : Bool → (source_id : ℕ) → Source → List Dict → World → World
  handed true source_id s entries w = record w {
    queue = w.queue ++ call_for source_id s entries ∷ [];
  }
  handed false source_id s entries w = w

  queue-entries :
      (broker : Bool) (retries n : ℕ) (source_id : ℕ) (s : Source) (entries : List Dict) (w : World)
      → length entries ≡ suc n
      → queue_entries broker retries source_id s entries w ≡ (
        if broker then processed (suc n) else retry (poll_countdown retries),
        handed broker source_id s entries w,
      )
  unfolding queue_entries delay
  queue-entries broker retries n source_id s [] w h = absurd (omega arith)
  queue-entries true retries n source_id s (e ∷ es) w h = rw h refl
  queue-entries false retries n source_id s (e ∷ es) w h = refl

  sources-handed :
      (broker : Bool) (source_id : ℕ) (s : Source) (entries : List Dict) (w : World)
      → (handed broker source_id s entries w).sources ≡ w.sources
  sources-handed true source_id s entries w = refl
  sources-handed false source_id s entries w = refl

  queue-handed :
      (broker : Bool) (source_id : ℕ) (s : Source) (entries : List Dict) (w : World)
      → (handed broker source_id s entries w).queue
        ≡ (if broker then w.queue ++ call_for source_id s entries ∷ [] else w.queue)
  queue-handed true source_id s entries w = refl
  queue-handed false source_id s entries w = refl

  -- The world with the ETag of the answer.
  abbrev validated : ℕ → String → Option ℕ → Source → World → World
  validated source_id etag modified s w =
      store_validators reader source_id (some etag)
        (or_none modified (parse_modified fromisoformat s.config.last_modified)) w

  and_false : (b : Bool) → (b && false) ≡ false
  and_false true = refl
  and_false false = refl

  poll-changed :
      (broker : Bool) (retries : ℕ) (source_id : ℕ) (w : World) (s : Source) (etag : String)
      (modified : Option ℕ) (bozo : Bool) (e : RawEntry) (es : List RawEntry)
      → find (λ x. x.id == source_id) w.sources ≡ some s
      → s.is_active ≡ true
      → reply_to s ≡ feed (some etag) modified bozo (e ∷ es)
      → poll_rss_feed_task reader fromisoformat broker retries source_id w
        ≡ queue_entries broker retries source_id s
            (parse_entries reader s.url (e ∷ es))
            (validated source_id etag modified s w)
  unfolding poll_result read_reply
  poll-changed broker retries source_id w s etag modified bozo e es found active new =
      poll-answered broker retries source_id w s found active ∙ rw new (rw (and_false bozo) refl)

  etag-stored :
      (etag : String) (modified : Option ℕ) (s : Source)
      → is_empty etag ≡ false
      → (stored (some etag) modified s).config.etag ≡ some etag
  unfolding stored
  etag-stored etag none s real = rw real refl
  etag-stored etag (some t) s real = rw real refl

  -- A source whose stored ETag is answered by 304 is not modified.
  poll-unchanged :
      (broker : Bool) (retries : ℕ) (source_id : ℕ) (w : World) (s : Source) (etag : String)
      → find (λ x. x.id == source_id) w.sources ≡ some s
      → s.is_active ≡ true
      → is_empty etag ≡ false
      → s.config.etag ≡ some etag
      → ((since : Option ℕ) → reader.get s.url since (some etag) ≡ status 304)
      → poll_rss_feed_task reader fromisoformat broker retries source_id w ≡ (not_modified_since, w)
  unfolding poll_result read_reply
  poll-unchanged broker retries source_id w s etag found active real kept unchanged =
      let since = parse_modified fromisoformat s.config.last_modified in
      let sent : given s.config.etag ≡ some etag = rw kept (rw real refl) in
      let answered : reply_to s ≡ status 304 =
        ap (λ o. reader.get s.url since o) sent ∙ unchanged since in
      poll-answered broker retries source_id w s found active ∙ rw answered refl

  length-entries :
      (url : String) (es : List RawEntry) → length (parse_entries reader url es) ≡ length es
  unfolding parse_entries
  length-entries url [] = refl
  length-entries url (e ∷ es) = ap suc (length-entries url es)

  active-stored :
      (etag : Option String) (modified : Option ℕ) (s : Source)
      → (stored etag modified s).is_active ≡ s.is_active
  unfolding stored
  active-stored etag modified s = refl

  url-stored :
      (etag : Option String) (modified : Option ℕ) (s : Source)
      → (stored etag modified s).url ≡ s.url
  unfolding stored
  url-stored etag modified s = refl

  -- The poll after the ETag was stored, whatever was queued meanwhile.
  poll-again :
      (later : Bool) (again : ℕ) (source_id : ℕ) (w v : World) (s : Source) (etag : String)
      (modified : Option ℕ)
      → find (λ x. x.id == source_id) w.sources ≡ some s
      → s.is_active ≡ true
      → is_empty etag ≡ false
      → ((since : Option ℕ) → reader.get s.url since (some etag) ≡ status 304)
      → v.sources ≡ (store_validators reader source_id (some etag) modified w).sources
      → poll_rss_feed_task reader fromisoformat later again source_id v ≡ (not_modified_since, v)
  poll-again later again source_id w v s etag modified found active real unchanged same =
      poll-unchanged later again source_id v (stored (some etag) modified s) etag
        (ap (λ xs. find (λ x. x.id == source_id) xs) same
          ∙ store_validators-find source_id (some etag) modified w s found)
        (active-stored (some etag) modified s ∙ active) real (etag-stored etag modified s real)
        (λ since.
          ap (λ u. reader.get u since (some etag)) (url-stored (some etag) modified s)
          ∙ unchanged since)

  -- A feed that has changed, and answers 304 to its new ETag: the poll stores the ETag before it queues
  -- the entries. If the broker takes the call, all entries are queued, in one call; if not, the task
  -- asks for a retry and nothing is queued. Either way every later poll finds the feed not modified,
  -- so the entries are queued once or never.
  pub poll_rss_feed_task-once :
      (broker : Bool) (retries : ℕ) (source_id : ℕ) (w : World) (s : Source) (etag : String)
      (modified : Option ℕ) (bozo : Bool) (e : RawEntry) (es : List RawEntry)
      → find (λ x. x.id == source_id) w.sources ≡ some s
      → s.is_active ≡ true
      → is_empty etag ≡ false
      → reply_to s ≡ feed (some etag) modified bozo (e ∷ es)
      → ((since : Option ℕ) → reader.get s.url since (some etag) ≡ status 304)
      → let (outcome, w') = poll_rss_feed_task reader fromisoformat broker retries source_id w in
        (outcome ≡ (if broker then processed (length (e ∷ es)) else retry (poll_countdown retries)))
        × (w'.queue ≡ (
            if broker
            then w.queue ++ call_for source_id s (parse_entries reader s.url (e ∷ es)) ∷ []
            else w.queue))
        × ((later : Bool) (again : ℕ)
            → poll_rss_feed_task reader fromisoformat later again source_id w'
              ≡ (not_modified_since, w'))
  poll_rss_feed_task-once broker retries source_id w s etag modified bozo e es found active real new
        unchanged =
      let entries = parse_entries reader s.url (e ∷ es) in
      let m = or_none modified (parse_modified fromisoformat s.config.last_modified) in
      let first =
        poll-changed broker retries source_id w s etag modified bozo e es found active new
        ∙ queue-entries broker retries (length es) source_id s entries
            (validated source_id etag modified s w) (length-entries s.url (e ∷ es)) in
      let after = handed broker source_id s entries (validated source_id etag modified s w) in
      let same =
        sources-handed broker source_id s entries (validated source_id etag modified s w) in
      rw first (
        refl,
        queue-handed broker source_id s entries (validated source_id etag modified s w)
            ∙ queue-validated source_id (some etag) m w broker s entries,
        λ later n. poll-again later n source_id w after s etag m found active real unchanged same,
      )
