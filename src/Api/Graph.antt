-- ===== src/Api/Graph.antt =====
-- backend/api/v1/routes/graph.py: the full graph and the neighbourhood of an entity, over the tables
-- `entities` and `relationships`. An entity stands for its node, and a relationship for its edge.
pub mod Visits
pub mod Reach
pub mod Search
mod Examples
use osint_platform_core.Base.{
  ℕ, zero, suc, String, Bool, true, false, Option, none, some, List, [], ◌∷◌, ◌++◌, ◌==◌, str_eq,
  any, keep, take, if◌then◌else◌, ◌&&◌, ◌||◌,
}
use osint_platform_core.Base.Http.{Outcome, ok, http_exception}
use osint_platform_core.Storage.Queries.{get_by_id}
use osint_platform_core.Ingestion.Store.{Entity, Relationship}

pub record Db : Type 0 where
  pub entities : List Entity
  pub relationships : List Relationship

pub record Graph : Type 0 where
  pub nodes : List Entity
  pub edges : List Relationship

abbrev pub has : List Entity → ℕ → Bool
has entities id = any (λ e. e.id == id) entities

abbrev has_rel : List Relationship → ℕ → Bool
has_rel rels id = any (λ r. r.id == id) rels

unfoldable pub full_graph : (limit : ℕ) → Db → Graph
full_graph limit db =
    let entities = take limit db.entities in
    record {
      nodes = entities;
      edges =
          keep (λ r. has entities r.source_entity_id && has entities r.target_entity_id)
            db.relationships;
    }

abbrev pub touches : ℕ → Relationship → Bool
touches id r = r.source_entity_id == id || r.target_entity_id == id

-- backend/storage/database/postgres/queries.py
unfoldable pub get_entity_relationships : (direction : String) → ℕ → Db → List Relationship
get_entity_relationships direction id db =
    if str_eq direction "outgoing"
    then keep (λ r. r.source_entity_id == id) db.relationships
    else if str_eq direction "incoming"
    then keep (λ r. r.target_entity_id == id) db.relationships
    else keep (touches id) db.relationships

-- `visited_entities`, in order of insertion, and `next_frontier`
abbrev pub Reached : Type 0
Reached = List Entity × List ℕ

pub record Walk : Type 0 where
  pub reached : Reached
  pub visited_rels : List Relationship

-- from the entity that `get_by_id` found
abbrev pub append_found : ℕ → Option Entity → Reached → Reached
append_found id none s = s
append_found id (some e) (visited, next) = (visited ++ e ∷ [], next ++ id ∷ [])

-- `if not frontier: break`
abbrev pub if_any : (frontier : List ℕ) → (stopped rest : Walk) → Walk
if_any [] stopped rest = stopped
if_any (id ∷ ids) stopped rest = rest

module _ (db : Db) where
  unfoldable pub visit : (neighbour_id : ℕ) → Reached → Reached
  unfolding get_by_id
  visit neighbour_id (visited, next) =
      if has visited neighbour_id
      then (visited, next)
      else append_found neighbour_id (get_by_id (λ e. e.id) neighbour_id db.entities)
          (visited, next)

  visit_relationship : Relationship → Walk → Walk
  unfolding visit
  visit_relationship r w = record {
    reached = visit r.target_entity_id (visit r.source_entity_id w.reached);
    visited_rels = if has_rel w.visited_rels r.id then w.visited_rels else w.visited_rels ++ r ∷ [];
  }

  visit_relationships : List Relationship → Walk → Walk
  unfolding visit_relationship
  visit_relationships [] w = w
  visit_relationships (r ∷ rs) w = visit_relationships rs (visit_relationship r w)

  pub visit_frontier : List ℕ → Walk → Walk
  unfolding visit_relationships get_entity_relationships
  visit_frontier [] w = w
  visit_frontier (id ∷ ids) w =
      visit_frontier ids (visit_relationships (get_entity_relationships "both" id db) w)

  -- `next_frontier` starts empty at each round.
  abbrev pub restart : Walk → Walk
  restart w = record { reached = (w.reached.0, []); visited_rels = w.visited_rels }

  pub rounds : (depth : ℕ) → (frontier : List ℕ) → Walk → Walk
  unfolding visit_frontier
  rounds zero frontier w = w
  rounds (suc depth) frontier w =
      let w' = visit_frontier frontier (restart w) in
      let rest = rounds depth w'.reached.1 w' in if_any w'.reached.1 w' rest

  pub from_centre : ℕ → (depth : ℕ) → Option Entity → Outcome Graph
  unfolding rounds
  from_centre entity_id depth none = http_exception 404 "Entity not found"
  from_centre entity_id depth (some centre) =
      let w =
        rounds depth (entity_id ∷ []) (record { reached = (centre ∷ [], []); visited_rels = [] }) in
      ok (record { nodes = w.reached.0; edges = w.visited_rels })

  unfoldable pub neighbourhood : (entity_id depth : ℕ) → Outcome Graph
  unfolding from_centre get_by_id
  neighbourhood entity_id depth =
      from_centre entity_id depth (get_by_id (λ e. e.id) entity_id db.entities)
