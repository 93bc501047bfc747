-- ===== src/Api/Graph/Examples.antt =====
-- The theorem about the neighbourhood at a concrete input.
use osint_platform_core.Base.{ℕ, ◌↔◌, true, none, [], ◌∷◌, ◌≡◌, refl}
use osint_platform_core.Base.Apart.{AreApart}
use osint_platform_core.Base.Http.{ok}
use osint_platform_core.Ingestion.Store.{Entity, Relationship}
use osint_platform_core.Api.Graph.{Db, Graph, has, neighbourhood}
use osint_platform_core.Api.Graph.Visits.{same_id}
use osint_platform_core.Api.Graph.Reach.{Trail}
use osint_platform_core.Api.Graph.Search.{neighbourhood-Trail}

abbrev entity : ℕ → Entity
entity id = record {
  id = id;
  entity_type = "ip";
  name = "10.0.0.1";
  aliases = [];
  attributes = [];
  confidence_score = 500000;
  is_canonical = true;
  canonical_id = none;
  created_by = none;
}

abbrev link : (id source target : ℕ) → Relationship
link id source target = record {
  id = id;
  source_entity_id = source;
  target_entity_id = target;
  relationship_type = "resolves_to";
  attributes = [];
  is_directed = true;
  source_id = none;
  confidence_score = 500000;
}

abbrev chain : Db
chain = record {
  entities = entity 1 ∷ entity 2 ∷ entity 3 ∷ entity 4 ∷ [];
  relationships = link 11 1 2 ∷ link 12 3 2 ∷ link 13 3 4 ∷ [];
}

neighbourhood-Trail_example :
    (g : Graph) × ((neighbourhood chain 1 2 ≡ ok g)
      × ((c : ℕ) → (has g.nodes c ≡ true) ↔ Trail chain 2 1 c)
      × AreApart same_id g.nodes)
neighbourhood-Trail_example = neighbourhood-Trail chain 1 2 refl
