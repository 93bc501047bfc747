-- ===== src/Storage/GraphSync.antt =====
-- backend/storage/database/graph/graph_sync.py: the mirror of the tables in Neo4j, with what it calls of
-- backend/storage/database/graph/neo4j_adapter.py. The graph is the list of its nodes and of its edges;
-- an entity does not change its type, so that a node is told by its identifier.
pub mod Labels
pub mod Mirror
pub mod Completeness
mod Examples
use Prim.Native.Char.{Char, code}
use osint_platform_core.Base.{
  ℕ, ◌+◌, String, Bool, true, false, not, Option, none, some, List, [], ◌∷◌, ◌++◌, ◌==◌, leb,
  str_eq, any, keep, if◌then◌else◌, ◌&&◌, ◌||◌,
}
use osint_platform_core.Base.Rows.{find, update}
use osint_platform_core.Base.Text.{is_empty}
use osint_platform_core.Ingestion.Store.{Entity, Relationship}

-- `[0-9]` and `[a-zA-Z0-9_]`
abbrev pub is_digit : Char → Bool
is_digit c = leb 48 (code c) && leb (code c) 57

abbrev pub is_word : Char → Bool
is_word c =
    is_digit c
    || (leb 65 (code c) && leb (code c) 90 || (leb 97 (code c) && leb (code c) 122 || code c == 95))

abbrev pub underscore : Char
underscore = "_"

-- `re.sub(r"[^a-zA-Z0-9_]", "_", label)`
unfoldable pub substituted : String → String
substituted String.[] = String.[]
substituted (String.◌∷◌ c s) = String.◌∷◌ (if is_word c then c else underscore) (substituted s)

abbrev pub starts_with_digit : String → Bool
starts_with_digit String.[] = false
starts_with_digit (String.◌∷◌ c s) = is_digit c

unfoldable pub sanitise_label : String → String
unfolding substituted
sanitise_label label =
    let sanitised = substituted label in
    let prefixed =
      if starts_with_digit sanitised
      then String.◌∷◌ "L" (String.◌∷◌ underscore sanitised)
      else sanitised in
    if is_empty prefixed then "Unknown" else prefixed

-- A node with the labels Entity and `label`.
pub record Node : Type 0 where
  pub id : ℕ
  pub label : String
  pub name : String
  pub entity_type : String
  pub confidence_score : ℕ
  pub is_canonical : Bool

pub record Edge : Type 0 where
  pub from_id : ℕ
  pub to_id : ℕ
  pub rel_type : String
  pub id : ℕ
  pub confidence_score : ℕ
  pub is_directed : Bool

pub record Graph : Type 0 where
  pub nodes : List Node
  pub edges : List Edge

-- Whether Neo4j answers the query for a row; the adapter catches what is raised if not.
pub record Driver : Type 0 where
  pub entity_query : (id : ℕ) → Bool
  pub relationship_query : (id : ℕ) → Bool
  pub delete_query : (id : ℕ) → Bool

pub record Summary : Type 0 where
  pub entities_synced : ℕ
  pub relationships_synced : ℕ
  pub errors : ℕ

abbrev pub node_of : Entity → Node
node_of e = record {
  id = e.id;
  label = sanitise_label e.entity_type;
  name = e.name;
  entity_type = e.entity_type;
  confidence_score = e.confidence_score;
  is_canonical = e.is_canonical;
}

-- `MERGE (n:Entity:label {id: $id}) SET n += $props`
abbrev pub is_node : Node → Node → Bool
is_node n m = m.id == n.id && str_eq m.label n.label

unfoldable pub merge_node : Node → List Node → List Node
merge_node n nodes =
    if any (is_node n) nodes then update (is_node n) (λ m. n) nodes else nodes ++ n ∷ []

abbrev pub has_node : (id : ℕ) → List Node → Bool
has_node id nodes = any (λ n. n.id == id) nodes

-- `MERGE (a)-[r:rel_type]->(b) SET r += $props`
abbrev pub is_edge : Edge → Edge → Bool
is_edge r s = s.from_id == r.from_id && (s.to_id == r.to_id && str_eq s.rel_type r.rel_type)

unfoldable pub merge_edge : Edge → List Edge → List Edge
merge_edge r edges =
    if any (is_edge r) edges then update (is_edge r) (λ s. r) edges else edges ++ r ∷ []

-- The records of the query; of one that failed there are none.
unfoldable pub run_query : Driver → Entity → Graph → List Node × Graph
unfolding merge_node
run_query driver e g =
    if driver.entity_query e.id
    then (node_of e ∷ [], record g { nodes = merge_node (node_of e) g.nodes })
    else ([], g)

-- A list is never None.
abbrev is_not_none : List Node → Bool
is_not_none records = true

unfoldable pub sync_entity : Option Driver → Entity → Graph → Bool × Graph
unfolding run_query
sync_entity none e g = (false, g)
sync_entity (some driver) e g = let (result, g') = run_query driver e g in (is_not_none result, g')

abbrev given : Option Edge → Bool
given none = false
given (some r) = true

unfoldable pub create_relationship : Driver → Edge → Graph → Option Edge × Graph
unfolding merge_edge
create_relationship driver r g =
    if driver.relationship_query r.id && (has_node r.from_id g.nodes && has_node r.to_id g.nodes)
    then (some r, record g { edges = merge_edge r g.edges })
    else (none, g)

-- The node with its edges.
unfoldable pub delete_node : Driver → (node_id : ℕ) → Graph → Bool × Graph
delete_node driver node_id g =
    if driver.delete_query node_id
    then (
      true,
      record g {
        nodes = keep (λ n. not (n.id == node_id)) g.nodes;
        edges = keep (λ r. not (r.from_id == node_id || r.to_id == node_id)) g.edges;
      },
    )
    else (false, g)

unfoldable pub sync_entity_deletion : Option Driver → (entity_id : ℕ) → Graph → Bool × Graph
unfolding delete_node
sync_entity_deletion none entity_id g = (false, g)
sync_entity_deletion (some driver) entity_id g = delete_node driver entity_id g

module _ {A : Type 0} (sync : A → Graph → Bool × Graph) where
  -- The loop over the rows: how many succeeded, how many failed, and the graph.
  unfoldable pub sync_all : List A → Graph → (ℕ × ℕ) × Graph
  sync_all [] g = ((0, 0), g)
  sync_all (x ∷ xs) g =
      let (success, g') = sync x g in
      let ((synced, errors), after) = sync_all xs g' in
      ((if success then synced + 1 else synced, if success then errors else errors + 1), after)

-- `upper` is Python's.
module _ (upper : String → String) where
  abbrev pub edge_of : Relationship → Edge
  edge_of r = record {
    from_id = r.source_entity_id;
    to_id = r.target_entity_id;
    rel_type = sanitise_label (upper r.relationship_type);
    id = r.id;
    confidence_score = r.confidence_score;
    is_directed = r.is_directed;
  }

  unfoldable pub sync_relationship : Option Driver → Relationship → Graph → Bool × Graph
  unfolding create_relationship
  sync_relationship none r g = (false, g)
  sync_relationship (some driver) r g =
      let (result, g') = create_relationship driver (edge_of r) g in (given result, g')

  unfoldable pub full_sync :
      Option Driver → List Entity → List Relationship → Graph → Summary × Graph
  unfolding sync_all sync_entity sync_relationship
  full_sync none entities relationships g =
      (record { entities_synced = 0; relationships_synced = 0; errors = 0 }, g)
  full_sync (some driver) entities relationships g =
      let ((entities_synced, entity_errors), g') =
        sync_all (sync_entity (some driver)) entities g in
      let ((relationships_synced, errors), after) =
        sync_all (sync_relationship (some driver)) relationships g' in
      (
        record {
          entities_synced = entities_synced;
          relationships_synced = relationships_synced;
          errors = entity_errors + errors;
        },
        after,
      )
