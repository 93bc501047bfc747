-- ===== src/Api/Relationships/Examples.antt =====
-- The relationships router at concrete inputs.
use osint_platform_core.Base.{ℕ, ltb, true, false, none, some, [], ◌∷◌, refl}
use osint_platform_core.Ingestion.Store.{Entity, Relationship}
use osint_platform_core.Api.Entities.{Db}
use osint_platform_core.Api.Entities.References.{AreRooted}
use osint_platform_core.Api.Relationships.{
  RelationshipCreate, RelationshipUpdate, relationship_from, create_relationship,
  update_relationship, delete_relationship,
}
use osint_platform_core.Api.Relationships.Endpoints.{relationship_handlers-AreRooted}

abbrev entity : ℕ → Entity
entity id = record {
  id = id;
  entity_type = "person";
  name = "Eve";
  aliases = [];
  attributes = [];
  confidence_score = 500000;
  is_canonical = true;
  canonical_id = none;
  created_by = none;
}

abbrev body : RelationshipCreate
body = record {
  source_entity_id = 1;
  target_entity_id = 2;
  relationship_type = "knows";
  attributes = [];
  confidence_score = 1000000;
  is_directed = true;
  source_id = none;
}

abbrev knows : Relationship
knows = relationship_from body 11

abbrev db : Db
db = record { entities = entity 1 ∷ entity 2 ∷ []; relationships = knows ∷ []; next_id = 20 }

abbrev changes : RelationshipUpdate
changes = record {
  relationship_type = some "met";
  attributes = none;
  confidence_score = none;
  is_directed = some false;
}

relationship_handlers-AreRooted_example :
    AreRooted (create_relationship (ltb 0) body db).1
    × AreRooted (update_relationship 11 changes db).1
    × AreRooted (delete_relationship 11 db).1
relationship_handlers-AreRooted_example =
    relationship_handlers-AreRooted (ltb 0) body 11 changes db
      (record { pointers = (refl, (refl, tt)); ends = (refl, tt) })
