-- ===== src/Ingestion/Store.antt =====
-- backend/ingestion/queue/processor.py, `store_entities`: the tables that storing reads and
-- writes, and what it does to them.
pub mod Merge
pub mod Canonical
pub mod Relationships
use osint_platform_core.Base.{
  min, ℕ, ◌+◌, String, Bool, true, false, Option, none, some, List, [], ◌∷◌, ◌++◌, ◌==◌, ltb,
  str_eq, str_in, keep, not, if◌then◌else◌, ◌&&◌, ◌||◌,
}
use osint_platform_core.Base.Rows.{update}
use osint_platform_core.Base.Http.{Outcome, ok, unhandled, Handler, pure, crash, gets, ◌>>=◌}
use osint_platform_core.Base.Json.{Value, truthy, lookup, insert}
use osint_platform_core.Ingestion.Records.{Dict, NormalizedRecord}

pub record Entity : Type 0 where
  pub id : ℕ
  pub entity_type : String
  pub name : String
  pub aliases : List String
  pub attributes : Dict
  pub confidence_score : ℕ
  pub is_canonical : Bool
  pub canonical_id : Option ℕ
  pub created_by : Option ℕ

pub record EntitySource : Type 0 where
  pub entity_id : ℕ
  pub source_id : ℕ
  pub raw_data : Dict
  pub confidence_score : ℕ

pub record Relationship : Type 0 where
  pub id : ℕ
  pub source_entity_id : ℕ
  pub target_entity_id : ℕ
  pub relationship_type : String
  pub attributes : Dict
  pub confidence_score : ℕ
  pub is_directed : Bool
  pub source_id : Option ℕ

-- The transaction of the session: it goes on, or a flush failed and the session asks for a rollback,
-- or a query failed and PostgreSQL ignores what follows.
pub data Transaction : Type 0 where
  begun : Transaction
  inactive : Transaction
  aborted : Transaction

-- The tables as the session sees them, what waits for a flush included. `next_id` is an identifier that no row has: what `gen_random_uuid()` returns next.
pub record Db : Type 0 where
  pub entities : List Entity
  pub entity_sources : List EntitySource
  pub relationships : List Relationship
  pub next_id : ℕ
  pub transaction : Transaction

-- What PostgreSQL refuses, with its error: tables that break a constraint or a type, as a `created_by`
-- without a user or a name beyond VARCHAR(512), when they are flushed; a query, for the texts in it.
pub record Postgres : Type 0 where
  pub refuses : Db → Option String
  pub refuses_query : (entity_type name : String) → Option String

-- `result.scalar_one_or_none()` of the rows that a query selects
unfoldable pub scalar_one_or_none : {A : Type 0} → List A → Handler Db (Option A)
scalar_one_or_none [] = pure none
scalar_one_or_none (x ∷ []) = pure (some x)
scalar_one_or_none (x ∷ y ∷ rest) = crash "MultipleResultsFound"

flushed : Option String → Handler Db (Unit {0})
flushed none db = (ok tt, db)
flushed (some error) db = (unhandled error, record db { transaction = inactive })

flush_in : Postgres → Transaction → Handler Db (Unit {0})
unfolding flushed
flush_in pg begun db = flushed (pg.refuses db) db
flush_in pg inactive db = (unhandled "PendingRollbackError", db)
flush_in pg aborted db = (unhandled "InFailedSQLTransactionError", db)

-- `session.flush()`
unfoldable pub flush : Postgres → Handler Db (Unit {0})
unfolding flush_in
flush pg db = flush_in pg db.transaction db

answer : {A : Type 0} → (refused : Option String) → (Db → List A) → Handler Db (List A)
answer none rows db = (ok (rows db), db)
answer (some error) rows db = (unhandled error, record db { transaction = aborted })

-- `session.execute(stmt)`, which flushes first: the session of the task has autoflush.
unfoldable pub execute :
    {A : Type 0} → Postgres → (refused : Option String) → (Db → List A) → Handler Db (List A)
unfolding flush answer
execute pg refused rows = do _ ← flush pg; answer refused rows

abbrev pub is_canonical_of : String → String → Entity → Bool
is_canonical_of entity_type name e =
    str_eq e.entity_type entity_type && str_eq e.name name && e.is_canonical

unfoldable pub merge_aliases : (existing : List String) → (new : List String) → List String
merge_aliases existing [] = existing
merge_aliases existing (a ∷ as') =
    merge_aliases (if str_in a existing then existing else existing ++ a ∷ []) as'

-- `k not in existing or not existing[k]`
abbrev pub wants : Option Value → Bool
wants none = true
wants (some v) = not (truthy v)

unfoldable pub merge_attributes : (existing : Dict) → (new : Dict) → Dict
merge_attributes existing [] = existing
merge_attributes existing ((k, v) ∷ rest) =
    merge_attributes (if wants (lookup k existing) then insert k v existing else existing) rest

unfoldable pub merge_entity : NormalizedRecord → Entity → Entity
merge_entity norm e = record e {
  aliases = merge_aliases e.aliases norm.aliases;
  attributes = merge_attributes e.attributes norm.attributes;
  confidence_score =
      if ltb e.confidence_score norm.confidence then norm.confidence else e.confidence_score;
}

new_entity : (id : ℕ) → Option ℕ → NormalizedRecord → Entity
new_entity id user norm = record {
  id = id;
  entity_type = norm.entity_type;
  name = norm.name;
  aliases = norm.aliases;
  attributes = norm.attributes;
  confidence_score = norm.confidence;
  is_canonical = true;
  canonical_id = none;
  created_by = user;
}

add_entity : Option ℕ → NormalizedRecord → Handler Db ℕ
unfolding new_entity
add_entity user norm db = (
  ok db.next_id,
  record db {
    entities = db.entities ++ new_entity db.next_id user norm ∷ [];
    next_id = db.next_id + 1;
  },
)

-- The entity of the record, merged into the row that was found, or inserted and flushed; its
-- identifier.
upsert : Postgres → Option ℕ → NormalizedRecord → Option Entity → Handler Db ℕ
unfolding add_entity flush
upsert pg user norm none = do id ← add_entity user norm; _ ← flush pg; pure id
upsert pg user norm (some existing) = λ db. (
  ok existing.id,
  record db { entities = update (λ e. e.id == existing.id) (λ e. merge_entity norm e) db.entities },
)

add_link :
    NormalizedRecord → (entity_id source_id : ℕ) → Option EntitySource → Handler Db (Unit {0})
add_link norm entity_id source_id (some link) db = (ok tt, db)
add_link norm entity_id source_id none db = (
  ok tt,
  record db {
    entity_sources =
        db.entity_sources
        ++ record {
          entity_id = entity_id;
          source_id = source_id;
          raw_data = norm.attributes;
          confidence_score = norm.confidence;
        }
          ∷ [];
  },
)

link_source : Postgres → NormalizedRecord → Option ℕ → (entity_id : ℕ) → Handler Db (Unit {0})
unfolding add_link execute
link_source pg norm none entity_id = pure tt
link_source pg norm (some source_id) entity_id = do
  links ←
      execute pg none
        (λ db. keep (λ l. l.entity_id == entity_id && l.source_id == source_id) db.entity_sources)
  link ← scalar_one_or_none links
  add_link norm entity_id source_id link

-- The body of the loop of `store_entities`.
pub store_entity : Postgres → Option ℕ → Option ℕ → NormalizedRecord → Handler Db ℕ
unfolding execute
store_entity pg source user norm = do
  rows ←
      execute pg (pg.refuses_query norm.entity_type norm.name)
        (λ db. keep (is_canonical_of norm.entity_type norm.name) db.entities)
  existing ← scalar_one_or_none rows
  id ← upsert pg user norm existing
  _ ← link_source pg norm source id
  pure id

-- `source` and `user` are the source's and the user's UUID, where there is one that parses.
unfoldable pub store_entities :
    Postgres → (entities : List NormalizedRecord) → (source user : Option ℕ) → Handler Db (List ℕ)
store_entities pg [] source user = pure []
store_entities pg (norm ∷ rest) source user = do
  id ← store_entity pg source user norm
  ids ← store_entities pg rest source user
  pure (id ∷ ids)
