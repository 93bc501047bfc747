-- ===== src/Api/Entities.antt =====
-- backend/api/v1/routes/entities.py: entities, and the merging of duplicates. The synchronisation with
-- Neo4j, whose errors the handlers drop, is left out, and so are timestamps.
pub mod Merging
pub mod References
mod Examples
use osint_platform_core.Base.{
  ℕ, ◌+◌, String, Bool, true, false, Option, none, some, List, [], ◌∷◌, ◌==◌, str_eq, str_in, not,
  keep, map, if◌then◌else◌, ◌&&◌, ◌||◌,
}
use osint_platform_core.Base.Http.{
  Outcome, ok, http_exception, unhandled, Handler, pure, fail, with_session,
}
use osint_platform_core.Storage.Queries.{
  Page, get_by_id, create_record, update_record, delete_record, paginate,
}
use osint_platform_core.Ingestion.Records.{Dict, valid_entity_types}
use osint_platform_core.Ingestion.Store.{Entity, Relationship}

-- The tables that the router reads and writes, and the relationships that go with an entity.
-- `next_id` is an identifier that no row has.
pub record Db : Type 0 where
  pub entities : List Entity
  pub relationships : List Relationship
  pub next_id : ℕ

pub record EntityCreate : Type 0 where
  pub entity_type : String
  pub name : String
  pub aliases : List String
  pub attributes : Dict
  pub confidence_score : ℕ
  pub is_canonical : Bool

pub record EntityUpdate : Type 0 where
  pub name : Option String
  pub aliases : Option (List String)
  pub attributes : Option Dict
  pub confidence_score : Option ℕ
  pub is_canonical : Option Bool

abbrev pub entity_from : EntityCreate → (id user_id : ℕ) → Entity
entity_from body id user_id = record {
  id = id;
  entity_type = body.entity_type;
  name = body.name;
  aliases = body.aliases;
  attributes = body.attributes;
  confidence_score = body.confidence_score;
  is_canonical = body.is_canonical;
  canonical_id = none;
  created_by = some user_id;
}

unfoldable pub create_entity : EntityCreate → (user_id : ℕ) → Handler Db Entity
unfolding create_record
create_entity body user_id db =
    if not (str_in body.entity_type valid_entity_types)
    then fail 422 "Invalid entity_type" db
    else let e = entity_from body db.next_id user_id in
      (ok e, record db { entities = create_record e db.entities; next_id = db.next_id + 1 })

-- A filter that is not given, or is empty, is not applied.
abbrev is_of_type : Option String → Entity → Bool
is_of_type none e = true
is_of_type (some t) e = if str_eq t "" then true else str_eq e.entity_type t

abbrev is_of_kind : Option Bool → Entity → Bool
is_of_kind none e = true
is_of_kind (some true) e = e.is_canonical
is_of_kind (some false) e = not e.is_canonical

abbrev is_known_type : Option String → Bool
is_known_type none = true
is_known_type (some t) = if str_eq t "" then true else str_in t valid_entity_types

unfoldable pub list_entities :
    (page page_size : ℕ)
    → (entity_type : Option String) → (is_canonical : Option Bool) → Db
    → Outcome (Page Entity)
unfolding paginate
list_entities page page_size entity_type is_canonical db =
    if is_known_type entity_type
    then paginate page page_size (λ e. is_of_type entity_type e && is_of_kind is_canonical e)
        db.entities
    else http_exception 422 "Invalid entity_type"

pub or_404 : Option Entity → Handler Db Entity
or_404 none = fail 404 "Entity not found"
or_404 (some e) = pure e

unfoldable pub get_entity : (entity_id : ℕ) → Handler Db Entity
unfolding get_by_id or_404
get_entity entity_id db = or_404 (get_by_id (λ e. e.id) entity_id db.entities) db

abbrev or_old : {A : Type 0} → Option A → A → A
or_old none old = old
or_old (some new) old = new

abbrev pub apply_update : EntityUpdate → Entity → Entity
apply_update body e = record e {
  name = or_old body.name e.name;
  aliases = or_old body.aliases e.aliases;
  attributes = or_old body.attributes e.attributes;
  confidence_score = or_old body.confidence_score e.confidence_score;
  is_canonical = or_old body.is_canonical e.is_canonical;
}

-- from the entity that was found; an empty update leaves the row as it is
abbrev update_found : (entity_id : ℕ) → EntityUpdate → Option Entity → Handler Db Entity
update_found entity_id body none db = fail 404 "Entity not found" db
update_found entity_id body (some e) db =
    let (updated, rows) = update_record (λ x. x.id) entity_id (apply_update body) db.entities in
    or_404 updated (record db { entities = rows })

unfoldable pub update_entity : (entity_id : ℕ) → EntityUpdate → Handler Db Entity
unfolding get_by_id update_record or_404
update_entity entity_id body db =
    update_found entity_id body (get_by_id (λ e. e.id) entity_id db.entities) db

-- The foreign keys of the tables: relationships go with the entity, and a reference to it is nulled.
abbrev pub detach : (entity_id : ℕ) → Entity → Entity
detach entity_id e = elim e.canonical_id [
  | none ↦ e
  | some c ↦ if c == entity_id then record e { canonical_id = none } else e
]

abbrev pub without : (entity_id : ℕ) → Db → Db
without entity_id db = record db {
  entities = map (detach entity_id) (delete_record (λ e. e.id) entity_id db.entities).1;
  relationships =
      keep (λ r. not (r.source_entity_id == entity_id || r.target_entity_id == entity_id))
        db.relationships;
}

unfoldable pub delete_entity : (entity_id : ℕ) → Handler Db (Unit {0})
unfolding delete_record
delete_entity entity_id db =
    if (delete_record (λ e. e.id) entity_id db.entities).0
    then (ok tt, without entity_id db)
    else fail 404 "Entity not found" db

-- `{"is_canonical": False, "canonical_id": canonical}`
abbrev pub point_at : (canonical : ℕ) → Entity → Entity
point_at canonical e = record e { is_canonical = false; canonical_id = some canonical }

abbrev cons_found : Option Entity → List Entity → List Entity
cons_found none es = es
cons_found (some e) es = e ∷ es

pub merge_loop : (canonical : ℕ) → (duplicates : List ℕ) → List Entity → List Entity × List Entity
unfolding update_record
merge_loop canonical [] rows = ([], rows)
merge_loop canonical (d ∷ ds) rows =
    let (dup, rows') = update_record (λ e. e.id) d (point_at canonical) rows in
    let (found, rows'') = merge_loop canonical ds rows' in
    if d == canonical then merge_loop canonical ds rows else (cons_found dup found, rows'')

pub merge_found : (canonical : ℕ) → (duplicates : List ℕ) → Option Entity → Handler Db (List Entity)
unfolding merge_loop
merge_found canonical duplicates none db = fail 404 "Canonical entity not found" db
merge_found canonical duplicates (some c) db =
    let (found, rows) = merge_loop canonical duplicates db.entities in
    (ok (c ∷ found), record db { entities = rows })

unfoldable pub merge_entities : (canonical : ℕ) → (duplicates : List ℕ) → Handler Db (List Entity)
unfolding merge_found get_by_id
merge_entities canonical duplicates db =
    merge_found canonical duplicates (get_by_id (λ e. e.id) canonical db.entities) db
