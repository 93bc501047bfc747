-- ===== src/Storage/GraphSync/Examples.antt =====
-- The synchronisation with Neo4j at concrete inputs.
use osint_platform_core.Base.{
  ℕ, ◌+◌, String, Bool, true, false, none, some, List, [], ◌∷◌, ◌≡◌, refl,
}
use osint_platform_core.Ingestion.Store.{Entity, Relationship}
use osint_platform_core.Storage.GraphSync.{Graph, Driver, sanitise_label, full_sync, edge_of}
use osint_platform_core.Storage.GraphSync.Labels.{is_label, sanitise_label-is_label}
use osint_platform_core.Storage.GraphSync.Mirror.{full_sync-unanswered}
use osint_platform_core.Storage.GraphSync.Completeness.{IsMirror, full_sync-IsMirror}

abbrev entity : ℕ → Entity
entity id = record {
  id = id;
  entity_type = "person";
  name = "Eve";
  aliases = [];
  attributes = [];
  confidence_score = 500000;
  is_canonical = true;
  canonical_id = none;
  created_by = none;
}

abbrev edge : (id source target : ℕ) → Relationship
edge id source target = record {
  id = id;
  source_entity_id = source;
  target_entity_id = target;
  relationship_type = "knows";
  attributes = [];
  confidence_score = 1000000;
  is_directed = true;
  source_id = none;
}

abbrev entities : List Entity
entities = entity 1 ∷ entity 2 ∷ []

abbrev relationships : List Relationship
relationships = edge 10 1 2 ∷ edge 11 1 2 ∷ []

abbrev empty : Graph
empty = record { nodes = []; edges = [] }

abbrev driver : Bool → Driver
driver answers = record {
  entity_query = λ id. answers;
  relationship_query = λ id. answers;
  delete_query = λ id. answers;
}

abbrev upper : String → String
upper s = "KNOWS"

injection : sanitise_label "x) DETACH DELETE n //" ≡ "x__DETACH_DELETE_n___"
unfolding sanitise_label
injection = refl

digit : sanitise_label "5g mast" ≡ "L_5g_mast"
unfolding sanitise_label
digit = refl

-- Two relationships of one type between the same entities are one edge, with the fields of the later.
merged :
    (full_sync upper (some (driver true)) entities relationships empty).1.edges
    ≡ edge_of upper (edge 11 1 2) ∷ []
unfolding full_sync sanitise_label
merged = refl

sanitise_label-is_label_example :
    (is_label (sanitise_label "5g mast") ≡ true)
    × (sanitise_label (sanitise_label "5g mast") ≡ sanitise_label "5g mast")
sanitise_label-is_label_example = sanitise_label-is_label "5g mast"

full_sync-unanswered_example :
    let (s, after) = full_sync upper (some (driver false)) entities relationships empty in
    (s.entities_synced ≡ 2) × (s.relationships_synced + s.errors ≡ 2) × (after.nodes ≡ [])
full_sync-unanswered_example =
    full_sync-unanswered (driver false) upper entities relationships empty (λ id. refl)

full_sync-IsMirror_example :
    let (s, after) = full_sync upper (some (driver true)) entities relationships empty in
    IsMirror upper entities relationships s after
full_sync-IsMirror_example =
    full_sync-IsMirror (driver true) upper entities relationships empty (λ id. refl) (λ id. refl)
      ((refl, tt), (tt, tt)) (refl, (refl, tt))
