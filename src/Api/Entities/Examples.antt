-- ===== src/Api/Entities/Examples.antt =====
-- The theorems about the entities router at concrete inputs.
use osint_platform_core.Base.{ℕ, true, none, some, [], ◌∷◌, ◌≡◌, refl, map}
use osint_platform_core.Storage.Queries.{get_by_id}
use osint_platform_core.Ingestion.Store.{Entity, Relationship}
use osint_platform_core.Api.Entities.{
  Db, EntityCreate, EntityUpdate, create_entity, update_entity, merge_entities, delete_entity,
}
use osint_platform_core.Api.Entities.Merging.{merged, merge_entities-map}
use osint_platform_core.Api.Entities.References.{AreRooted}
use osint_platform_core.Api.Entities.References.Handlers.{handlers-AreRooted}

abbrev entity : ℕ → Entity
entity id = record {
  id = id;
  entity_type = "person";
  name = "Eve";
  aliases = [];
  attributes = [];
  confidence_score = 500000;
  is_canonical = true;
  canonical_id = none;
  created_by = none;
}

abbrev knows : Relationship
knows = record {
  id = 11;
  source_entity_id = 1;
  target_entity_id = 2;
  relationship_type = "knows";
  attributes = [];
  is_directed = true;
  source_id = none;
  confidence_score = 500000;
}

abbrev db : Db
db = record {
  entities = entity 1 ∷ entity 2 ∷ entity 3 ∷ [];
  relationships = knows ∷ [];
  next_id = 20;
}

abbrev body : EntityCreate
body = record {
  entity_type = "person";
  name = "Mallory";
  aliases = [];
  attributes = [];
  confidence_score = 900000;
  is_canonical = true;
}

abbrev changes : EntityUpdate
changes = record {
  name = some "Eva";
  aliases = none;
  attributes = none;
  confidence_score = none;
  is_canonical = none;
}

found : get_by_id (λ e. e.id) 2 db.entities ≡ some (entity 2)
unfolding get_by_id
found = refl

merge_entities-map_example :
    (merge_entities 2 (1 ∷ 2 ∷ []) db).1
    ≡ (record db { entities = map (merged 2 (1 ∷ 2 ∷ [])) db.entities })
merge_entities-map_example = merge_entities-map 2 (1 ∷ 2 ∷ []) (entity 2) db found

handlers-AreRooted_example :
    AreRooted (create_entity body 9 db).1
    × AreRooted (update_entity 2 changes db).1
    × AreRooted (merge_entities 2 (1 ∷ []) db).1
    × AreRooted (delete_entity 2 db).1
handlers-AreRooted_example =
    handlers-AreRooted body 9 2 changes (1 ∷ []) db
      (record { pointers = (refl, (refl, (refl, tt))); ends = (refl, tt) })
