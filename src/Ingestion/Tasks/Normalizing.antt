-- ===== src/Ingestion/Tasks/Normalizing.antt =====
-- backend/ingestion/queue/ingestion_queue.py, `normalize_and_store_task`, and the way of the records
-- of an API source from its pages to the database.
use osint_platform_core.Base.{
  ℕ, suc, ◌+◌, ◌*◌, ◌/◌, ◌<◌, String, true, Option, none, some, List, [], ◌∷◌, ◌++◌, ◌==◌, take,
  drop, length, ◌≡◌, refl, ◌⊎◌,
}
use osint_platform_core.Base.Rows.{find}
use osint_platform_core.Ingestion.Records.{Dict, Tools}
use osint_platform_core.Ingestion.Store.{Db, Postgres}
use osint_platform_core.Ingestion.Store.Canonical.{IsConsistent, IsStored, Refuses, is_begun}
use osint_platform_core.Ingestion.Processor.{ProcessingResult, process_records}
use osint_platform_core.Ingestion.Processor.Accounting.{process_records-counts}
use osint_platform_core.Ingestion.Processor.Acceptance.{accepted, process_records-accepted}
use osint_platform_core.Ingestion.Connectors.Api.Paging.{Serves, fetch_paginated-all}
use osint_platform_core.Ingestion.Tasks.{Source, World, NormalizeCall, or_system, delay}
use osint_platform_core.Ingestion.Tasks.Fetching.{
  Sites, FetchConfig, queued, ingest_api_source_task, ingest_found, fetch_source, queue_records,
  new_connection,
}

-- `session.get(Source, source_id)`, of which the processor is given the identifier
abbrev source_ref : Option Source → Option ℕ
source_ref none = none
source_ref (some s) = some s.id

-- `user_of` reads the identifier of the user from its text.
unfoldable pub normalize_and_store_task :
    Tools
    → Postgres
    → (user_of : String → Option ℕ) → List Source
    → NormalizeCall
    → (commit_error : Option String) → Db
    → ProcessingResult × Db
unfolding process_records
normalize_and_store_task tools pg user_of sources call commit_error db =
    process_records tools pg (source_ref (find (λ s. s.id == call.source_id) sources))
      (user_of call.user_id) call.records commit_error db

module _ (sites : Sites) (config : FetchConfig) (tools : Tools) (pg : Postgres)
    (user_of : String → Option ℕ) where
  -- The records of an active API source that answers every page of a list, of at least one record,
  -- at the first request: the task queues one call with all of them. That call, run on a consistent
  -- database by a session whose commit fails for no other reason, counts every record, and stores the
  -- accepted ones (those that normalise and have a name and a storable type) all or none: either
  -- PostgreSQL refuses the tables with the first of them stored, or a query for one of them, and the
  -- database is as before; or it is consistent again, has just the types and names of canonical
  -- entities that were there and those of the accepted records, and counts these as successful.
  pub ingest_api_source_task-normalize :
      (extra retries source_id : ℕ) (w : World) (s : Source) (row : Dict) (rows : List Dict)
      (db : Db) (positive : 0 < config.page_size)
      → find (λ x. x.id == source_id) w.sources ≡ some s
      → s.is_active ≡ true
      → config.paginated ≡ true
      → ((k : ℕ)
          → Serves config.page_size positive
              (sites.api s.url)
              (suc k)
              (take config.page_size (drop (k * config.page_size) (row ∷ rows))))
      → is_begun db.transaction ≡ true
      → IsConsistent db
      → let call : NormalizeCall = record {
        records = row ∷ rows;
        source_id = source_id;
        user_id = or_system config.created_by;
      } in
        let (r, after) = normalize_and_store_task tools pg user_of w.sources call none db in
        (ingest_api_source_task sites config
            (length (row ∷ rows) / config.page_size + suc extra)
            true
            retries
            source_id
            w
          ≡ some (queued (length (row ∷ rows)), record w { queue = w.queue ++ call ∷ [] }))
        × (r.total ≡ length (row ∷ rows))
        × ((Refuses pg (accepted tools (row ∷ rows)) db × (after ≡ db))
            ⊎ (IsStored (accepted tools (row ∷ rows)) db after
                × (r.successful ≡ length (accepted tools (row ∷ rows)))))
  unfolding ingest_api_source_task ingest_found fetch_source queue_records delay
      normalize_and_store_task
  ingest_api_source_task-normalize extra retries source_id w s row rows db positive found active
        paginated serves going consistent =
      let source = source_ref (find (λ x. x.id == source_id) w.sources) in
      let user = user_of (or_system config.created_by) in
      let (c, sent, got) =
        fetch_paginated-all config.page_size positive (sites.api s.url) (row ∷ rows) extra
          new_connection serves in
      let stored = process_records-accepted tools pg source user (row ∷ rows) db going consistent in
      let counts = process_records-counts tools pg source user (row ∷ rows) none db in
      (rw found (rw active (rw paginated (rw got refl))), counts.0, stored)
