-- ===== src/Api/Relationships.antt =====
-- backend/api/v1/routes/relationships.py: the relationships between entities. The synchronisation with
-- Neo4j, whose errors the handler drops, is left out, and so are timestamps.
pub mod Endpoints
mod Examples
use osint_platform_core.Base.{
  ℕ, ◌+◌, String, Bool, true, false, Option, none, some, List, [], ◌∷◌, ◌==◌, str_eq, if◌then◌else◌,
  ◌||◌, ◌&&◌,
}
use osint_platform_core.Base.Http.{Outcome, ok, http_exception, Handler, fail, crash}
use osint_platform_core.Storage.Queries.{
  Page, get_by_id, create_record, update_record, delete_record, paginate,
}
use osint_platform_core.Ingestion.Records.{Dict}
use osint_platform_core.Ingestion.Store.{Entity, Relationship}
use osint_platform_core.Api.Entities.{Db}
use osint_platform_core.Api.Graph
use osint_platform_core.Api.Graph.{get_entity_relationships}

pub record RelationshipCreate : Type 0 where
  pub source_entity_id : ℕ
  pub target_entity_id : ℕ
  pub relationship_type : String
  pub attributes : Dict
  pub confidence_score : ℕ
  pub is_directed : Bool
  pub source_id : Option ℕ

pub record RelationshipUpdate : Type 0 where
  pub relationship_type : Option String
  pub attributes : Option Dict
  pub confidence_score : Option ℕ
  pub is_directed : Option Bool

abbrev pub refers : (has : ℕ → Bool) → Option ℕ → Bool
refers has none = true
refers has (some id) = has id

abbrev pub relationship_from : RelationshipCreate → (id : ℕ) → Relationship
relationship_from body id = record {
  id = id;
  source_entity_id = body.source_entity_id;
  target_entity_id = body.target_entity_id;
  relationship_type = body.relationship_type;
  attributes = body.attributes;
  confidence_score = body.confidence_score;
  is_directed = body.is_directed;
  source_id = body.source_id;
}

-- Both entities are looked up before either is asked for. `is_source` is that the table of sources has
-- the identifier, which the foreign key of `source_id` asks for.
unfoldable pub created_between :
    (is_source : ℕ → Bool)
    → RelationshipCreate
    → (src tgt : Option Entity) → Handler Db Relationship
unfolding create_record
created_between is_source body none tgt db = fail 404 "Source entity not found" db
created_between is_source body (some s) none db = fail 404 "Target entity not found" db
created_between is_source body (some s) (some t) db =
    let r = relationship_from body db.next_id in
    if refers is_source body.source_id
    then (
      ok r,
      record db { relationships = create_record r db.relationships; next_id = db.next_id + 1 },
    )
    else crash "IntegrityError" db

unfoldable pub create_relationship :
    (is_source : ℕ → Bool) → RelationshipCreate → Handler Db Relationship
unfolding created_between get_by_id
create_relationship is_source body db =
    created_between is_source body (get_by_id (λ e. e.id) body.source_entity_id db.entities)
      (get_by_id (λ e. e.id) body.target_entity_id db.entities) db

abbrev is_of_type : Option String → Relationship → Bool
is_of_type none r = true
is_of_type (some t) r = if str_eq t "" then true else str_eq r.relationship_type t

unfoldable pub list_relationships :
    (page page_size : ℕ) → (relationship_type : Option String) → Db → Outcome (Page Relationship)
unfolding paginate
list_relationships page page_size relationship_type db =
    paginate page page_size (is_of_type relationship_type) db.relationships

-- The parameter `direction` has a pattern: another text is answered with 422 before the handler.
unfoldable pub is_direction : String → Bool
is_direction s = str_eq s "outgoing" || (str_eq s "incoming" || str_eq s "both")

abbrev pub tables : Db → Graph.Db
tables db = record { entities = db.entities; relationships = db.relationships }

abbrev pub rels_of :
    (entity_id : ℕ) → (direction : String) → Db → Option Entity → Outcome (List Relationship)
rels_of entity_id direction db none = http_exception 404 "Entity not found"
rels_of entity_id direction db (some e) =
    ok (get_entity_relationships direction entity_id (tables db))

unfoldable pub get_entity_rels :
    (entity_id : ℕ) → (direction : String) → Db → Outcome (List Relationship)
unfolding get_entity_relationships get_by_id is_direction
get_entity_rels entity_id direction db =
    if is_direction direction
    then rels_of entity_id direction db (get_by_id (λ e. e.id) entity_id db.entities)
    else http_exception 422 "direction"

abbrev pub or_404 : Option Relationship → Outcome Relationship
or_404 none = http_exception 404 "Relationship not found"
or_404 (some r) = ok r

unfoldable pub get_relationship : (rel_id : ℕ) → Db → Outcome Relationship
unfolding get_by_id
get_relationship rel_id db = or_404 (get_by_id (λ r. r.id) rel_id db.relationships)

abbrev or_old {ℓ} : {A : Type ℓ} → Option A → A → A
or_old none old = old
or_old (some new) old = new

unfoldable pub apply_update : RelationshipUpdate → Relationship → Relationship
apply_update body r = record r {
  relationship_type = or_old body.relationship_type r.relationship_type;
  attributes = or_old body.attributes r.attributes;
  confidence_score = or_old body.confidence_score r.confidence_score;
  is_directed = or_old body.is_directed r.is_directed;
}

abbrev is_none {ℓ} : {A : Type ℓ} → Option A → Bool
is_none none = true
is_none (some x) = false

-- `not update_data`
abbrev pub is_blank : RelationshipUpdate → Bool
is_blank body =
    is_none body.relationship_type
    && (is_none body.attributes && (is_none body.confidence_score && is_none body.is_directed))

unfoldable pub update_relationship : (rel_id : ℕ) → RelationshipUpdate → Handler Db Relationship
unfolding update_record apply_update get_by_id
update_relationship rel_id body db =
    let (updated, rows) = update_record (λ r. r.id) rel_id (apply_update body) db.relationships in
    if is_blank body
    then (or_404 (get_by_id (λ r. r.id) rel_id db.relationships), db)
    else (or_404 updated, record db { relationships = rows })

unfoldable pub delete_relationship : (rel_id : ℕ) → Handler Db (Unit {0})
unfolding delete_record
delete_relationship rel_id db =
    let (deleted, rows) = delete_record (λ r. r.id) rel_id db.relationships in
    if deleted
    then (ok tt, record db { relationships = rows })
    else fail 404 "Relationship not found" db
