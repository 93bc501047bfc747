-- ===== src/Lib.antt =====
-- The core of the OSINT platform's backend: who calls, what they may do, how often, and what
-- becomes of the records, cases and entities that they work on.
--
-- The parts, and the files of the repository that they model:
--   Security/Roles         backend/security/rbac/role_manager.py: roles, permissions, hierarchy
--   Security/Accounts      the tables users and api_keys of
--                          backend/storage/database/postgres/models.py
--   Security/ApiKeys       backend/security/auth/api_key_manager.py: APIKeyManager
--   Security/Identity      backend/security/rbac/permission_checker.py: get_current_user,
--                          get_optional_user and the guards, with verify_token of
--                          backend/security/auth/jwt_handler.py
--   Security/RateLimiter   backend/security/rate_limiting/rate_limiter.py: is_allowed, reset and
--                          get_limit_info over a Redis sorted set
--   Plugins/Registry       backend/plugins/registry.py: the dictionary of plugins
--   Plugins/Loader         backend/plugins/loader.py: load_all_plugins
--   Plugins/Coordination   backend/plugins/modules/misinformation/detectors/coordination_detector.py
--   Storage/Queries        backend/storage/database/postgres/queries.py: the table helpers that the
--                          routers call, with paginate
--   Ingestion/Records      backend/ingestion/queue/processor.py: normalize_record, _extract_name,
--                          extract_entities
--   Ingestion/Store        the same file: store_entities, and store_relationships in
--                          Ingestion/Store/Relationships
--   Ingestion/Processor    the same file: process_records
--   Ingestion/Connectors   backend/ingestion/connectors: Web is the crawl of web_scraper.py, Api the
--                          retries and the pages of api_connector.py, Rss the conditional fetch of
--                          rss_connector.py
--   Ingestion/Tasks        backend/ingestion/queue/ingestion_queue.py: poll_rss_feed_task; in
--                          Ingestion/Tasks/Fetching the tasks for files, URLs and API sources; in
--                          Ingestion/Tasks/Normalizing normalize_and_store_task
--   Correlation/Temporal   backend/correlation/analyzers/temporal_analyzer.py: the overlap of two
--                          streams, the co-occurrence and the activity clusters
--   Correlation/Contextual backend/correlation/analyzers/contextual_analyzer.py: the affinity of
--                          types, the overlap of attributes, what two entities have in common
--   Storage/GraphSync      backend/storage/database/graph/graph_sync.py: the mirror of the tables in
--                          Neo4j, with what it calls of neo4j_adapter.py beside it
--   Normalization/Fields   backend/normalization/mappers/field_mapper.py: the synonyms of field names
--                          and the renaming of fields
--   Api/Cases              backend/api/v1/routes/cases.py: every handler
--   Api/Auth               backend/api/v1/routes/auth.py: accounts, tokens; Api/Auth/Keys the routes
--                          for API keys
--   Api/Graph              backend/api/v1/routes/graph.py: full_graph and neighbourhood
--   Api/Entities           backend/api/v1/routes/entities.py: all handlers but the search
--   Api/Relationships      backend/api/v1/routes/relationships.py: every handler, over the tables of
--                          Api/Entities
--   Api/Search             backend/api/v1/routes/search.py: the search over entities, cases and
--                          sources, with search_entities of the query helpers
--   Api/Notifications      backend/api/v1/routes/notifications.py: subscriptions and the broadcast,
--                          with backend/notifications: push_notification.py and vapid_keys.py
--   App/RateLimit          backend/main.py: rate_limit_middleware, the counter of each clock minute
-- Base holds what they share. The files called Examples apply the theorems at concrete inputs.
--
-- How the parts interact: the routers of Api read and write tables through Storage/Queries. The
-- session of Base/Http, with_session, commits what a handler did if it returned and rolls it back
-- if it raised; the handlers of Api/Cases, of which some raise after they wrote, run inside it.
-- Api/Auth issues the tokens and the API keys; Security/Identity validates them through
-- Security/ApiKeys and guards the routes by Security/Roles. Ingestion/Processor normalises a raw
-- record, stores it through Ingestion/Store, and commits once for the whole batch. The tasks of
-- Ingestion/Tasks fetch records through a connector, and put one call for all of them into the
-- queue of the broker; normalize_and_store_task takes such a call to the processor. The loader
-- fills the registry.
--
-- State and operations: a table is the list of its rows, the state of a component is a record of
-- tables, and a handler is a function from the state to an outcome (a value, an HTTPException, or
-- another exception, which is answered with status 500) and the next state. A query without ORDER
-- BY lists rows in an order that PostgreSQL leaves open; one listing is the order of its list, and
-- Storage/Queries/Pages takes another order for each call. Ingestion/Store has the transaction of
-- the session beside its tables: it is lost where PostgreSQL refuses a flush or a query.
-- Identifiers that the database generates are an argument, or the field next_id; UUIDs and times
-- are numbers, and a confidence is a number of millionths. The names of the functions are those of
-- the source; a part of a handler that is a function of its own is mapped to the lines that it
-- stands for.
--
-- Bounds and fuel: the crawl, the paginated fetch and the search for simultaneous posts run a
-- `while` loop, and take fuel. The last needs one unit more than there are posts with a timestamp.
-- For the crawl of every start URL there is enough, whatever the sites answer: Web/Ending measures
-- the depth that is left. The pages of a list take one round for each full page and one more; a
-- service whose pages are always full has no such bound, in the source as in the model. The retries
-- of a request are `max_retries` rounds, the search of neighbourhood runs `depth` rounds, as the
-- loops of the source do, and all other loops are recursion on the list that they run over.
-- Subtraction on ℕ stops at 0, which is the source's `max(0, ...)` where the limiter subtracts.
--
-- Parameters: SHA-256, random tokens, jose, passlib and uuid (Externals), the type mapper and the
-- cleaner of records (Tools), how Redis and a plugin class behave, the sites with urllib and httpx
-- (Web), an HTTP service (Service), feedparser and the dates (FeedReader), the extraction of
-- entities from a text (Sites), ILIKE, the expressions of SQLAlchemy and Elasticsearch (Backends),
-- what PostgreSQL refuses to store (Postgres), which queries Neo4j answers (Driver), pywebpush
-- (Webpush), and whether the broker can be reached. Theorems that need one of them to behave as
-- documented say so by a hypothesis.
--
-- Not modelled: log lines, response headers, timestamps that are only reported, and the limits
-- that pydantic sets on the lengths of fields; what Celery does with a retry; the waits of the
-- rate limits of the connectors, and their regular expressions; pandas and networkx; the types and
-- the cleaning of records, the scores on floats, the file stores and the other plugin modules.
pub mod Base
pub mod Security
pub mod Normalization
pub mod Plugins
pub mod Storage
pub mod Ingestion
pub mod Api
pub mod App
pub mod Correlation
