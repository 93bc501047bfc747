-- ===== src/Storage/GraphSync/Completeness.antt =====
-- backend/storage/database/graph/graph_sync.py, `full_sync`, where Neo4j answers every query.
use osint_platform_core.Base.{
  ℕ, ◌+◌, String, true, some, List, [], ◌∷◌, ◌==◌, ==_iff, str_eq_iff, str_eq_refl, any,
  any_of_append, length, All, All-map, Bool-cases, inl, inr, ◌&&◌, ◌||◌, ◌≡◌, refl, ◌∙◌, ap, arith,
}
use osint_platform_core.Base.Apart.{AreApart}
use osint_platform_core.Base.Rows.{find, find-any}
use osint_platform_core.Ingestion.Store.{Entity, Relationship}
use osint_platform_core.Api.Entities.References.{has, has_ends}
use osint_platform_core.Storage.GraphSync.{
  Node, Edge, Graph, Driver, Summary, node_of, edge_of, is_node, is_edge, has_node, merge_edge,
  sync_entity, create_relationship, sync_relationship, sync_all, full_sync,
}
use osint_platform_core.Storage.GraphSync.Mirror.{any-set, entities-synced, nodes-mirrored}

is_edge_self : (r : Edge) → is_edge r r ≡ true
is_edge_self r = ground (arith, str_eq_refl r.rel_type)

-- Edges between the same nodes with one type are one edge.
is_edge_trans : (r s t : Edge) → is_edge s t ≡ true → is_edge r s ≡ is_edge r t
is_edge_trans r s t h =
    let type : t.rel_type ≡ s.rel_type = (str_eq_iff t.rel_type s.rel_type).0 (ground (arith, h)) in
    let from : t.from_id ≡ s.from_id = (==_iff t.from_id s.from_id).0 (ground (arith, h)) in
    let to : t.to_id ≡ s.to_id = (==_iff t.to_id s.to_id).0 (ground (arith, h)) in
    rw (type, from, to) refl

any-merge_edge :
    (r s : Edge) (edges : List Edge)
    → any (is_edge r) (merge_edge s edges) ≡ (any (is_edge r) edges || is_edge r s)
unfolding merge_edge
any-merge_edge r s edges = elim (Bool-cases (any (is_edge s) edges)) [
  | inl there ↦
      rw there (
        any-set (is_edge s) s (is_edge r) edges (λ t h. is_edge_trans r s t h)
        ∙ covered edges there)
  | inr missing ↦ rw missing (any_of_append (is_edge r) edges (s ∷ []) ∙ ground arith)
]
  where
    covered :
        (xs : List Edge)
        → any (is_edge s) xs ≡ true
        → any (is_edge r) xs ≡ (any (is_edge r) xs || is_edge r s)
    covered [] k = cc
    covered (x ∷ xs) k = elim (Bool-cases (is_edge s x)) [
      | inl here ↦ rw (is_edge_trans r s x here) (ground arith)
      | inr other ↦
          let rest = covered xs (rw other at k) in ap (λ b. is_edge r x || b) rest ∙ ground arith
    ]

module _ (driver : Driver) (upper : String → String)
    (answers : (id : ℕ) → driver.relationship_query id ≡ true) where
  abbrev Joins : Graph → Relationship → Type 0
  Joins g r = (has_node r.source_entity_id g.nodes && has_node r.target_entity_id g.nodes) ≡ true

  abbrev joined : Relationship → Graph → Graph
  joined r g = record g { edges = merge_edge (edge_of upper r) g.edges }

  sync_relationship_lem :
      (r : Relationship) (g : Graph)
      → Joins g r
      → sync_relationship upper (some driver) r g ≡ (true, joined r g)
  unfolding sync_relationship create_relationship
  sync_relationship_lem r g h = rw (answers r.id, h) refl

  sync_all-step :
      (r : Relationship) (rs : List Relationship) (g : Graph)
      → Joins g r
      → let (counts, after) = sync_all (sync_relationship upper (some driver)) rs (joined r g) in
        sync_all (sync_relationship upper (some driver)) (r ∷ rs) g
        ≡ ((counts.0 + 1, counts.1), after)
  unfolding sync_all
  sync_all-step r rs g h = rw (sync_relationship_lem r g h) refl

  edge-kept :
      (e : Edge) (rs : List Relationship) (g : Graph)
      → All (Joins g) rs
      → any (is_edge e) g.edges ≡ true
      → any (is_edge e) (sync_all (sync_relationship upper (some driver)) rs g).1.edges ≡ true
  unfolding sync_all
  edge-kept e [] g h k = k
  edge-kept e (r ∷ rs) g h k =
      let there : any (is_edge e) (joined r g).edges ≡ true =
        any-merge_edge e (edge_of upper r) g.edges ∙ rw k refl in
      ap (λ x. any (is_edge e) x.1.edges) (sync_all-step r rs g h.0)
      ∙ edge-kept e rs (joined r g) h.1 there

  edges-mirrored :
      (rs : List Relationship) (g : Graph)
      → All (Joins g) rs
      → All
          (λ r.
            any
              (is_edge (edge_of upper r))
              (sync_all (sync_relationship upper (some driver)) rs g).1.edges
            ≡ true)
          rs
  unfolding sync_all
  edges-mirrored [] g h = tt
  edges-mirrored (r ∷ rs) g h =
      let step = sync_all-step r rs g h.0 in
      let there : any (is_edge (edge_of upper r)) (joined r g).edges ≡ true =
        any-merge_edge (edge_of upper r) (edge_of upper r) g.edges
        ∙ rw (is_edge_self (edge_of upper r)) (ground arith) in
      (
        ap (λ x. any (is_edge (edge_of upper r)) x.1.edges) step
            ∙ edge-kept (edge_of upper r) rs (joined r g) h.1 there,
        All-map rs (λ s k. ap (λ x. any (is_edge (edge_of upper s)) x.1.edges) step ∙ k)
            (edges-mirrored rs (joined r g) h.1),
      )

  relationships-synced :
      (rs : List Relationship) (g : Graph)
      → All (Joins g) rs
      → (sync_all (sync_relationship upper (some driver)) rs g).0 ≡ (length rs, 0)
  unfolding sync_all
  relationships-synced [] g h = refl
  relationships-synced (r ∷ rs) g h =
      let rest = relationships-synced rs (joined r g) h.1 in
      ap (λ x. x.0) (sync_all-step r rs g h.0)
      ∙ rw rest (ap (λ n. (n, 0)) (let k : length rs + 1 ≡ length (r ∷ rs) = omega arith in k))

  same-nodes :
      (rs : List Relationship) (g : Graph)
      → All (Joins g) rs
      → (sync_all (sync_relationship upper (some driver)) rs g).1.nodes ≡ g.nodes
  unfolding sync_all
  same-nodes [] g h = refl
  same-nodes (r ∷ rs) g h =
      ap (λ x. x.1.nodes) (sync_all-step r rs g h.0) ∙ same-nodes rs (joined r g) h.1

find-has_node :
    (es : List Entity) (nodes : List Node) (id : ℕ)
    → All (λ e. find (is_node (node_of e)) nodes ≡ some (node_of e)) es
    → has es id ≡ true
    → has_node id nodes ≡ true
find-has_node [] nodes id h k = cc
find-has_node (e ∷ es) nodes id h k = elim (Bool-cases (e.id == id)) [
  | inl here ↦ by_id nodes (find-any (is_node (node_of e)) nodes (node_of e) h.0) here
  | inr other ↦ find-has_node es nodes id h.1 (rw other at k)
]
  where
    by_id :
        (ns : List Node)
        → any (is_node (node_of e)) ns ≡ true
        → (e.id == id) ≡ true
        → has_node id ns ≡ true
    by_id [] a b = cc
    by_id (n ∷ ns) a b = ground (arith, a, b, by_id ns)

-- What a full synchronisation has put into the graph.
pub record IsMirror (upper : String → String) (entities : List Entity)
    (relationships : List Relationship) (s : Summary) (g : Graph) : Type 0 where
  pub all_entities : s.entities_synced ≡ length entities
  pub all_relationships : s.relationships_synced ≡ length relationships
  pub no_errors : s.errors ≡ 0
  pub nodes : All (λ e. find (is_node (node_of e)) g.nodes ≡ some (node_of e)) entities
  pub edges : All (λ r. any (is_edge (edge_of upper r)) g.edges ≡ true) relationships

-- Where Neo4j answers every query, no two entities have one identifier, and both ends of each
-- relationship are in the table: whatever was in the graph, the synchronisation reports no error and
-- all rows, each entity has its node with the present values, and each relationship an edge of its
-- type between the nodes of its ends.
pub full_sync-IsMirror :
    (driver : Driver) (upper : String → String) (entities : List Entity)
    (relationships : List Relationship) (g : Graph)
    → ((id : ℕ) → driver.entity_query id ≡ true)
    → ((id : ℕ) → driver.relationship_query id ≡ true)
    → AreApart (λ (x y : Entity). x.id == y.id) entities
    → All (λ r. has_ends entities r ≡ true) relationships
    → let (s, after) = full_sync upper (some driver) entities relationships g in
      IsMirror upper entities relationships s after
unfolding full_sync
full_sync-IsMirror driver upper entities relationships g nodes_answer edges_answer apart rooted =
    let g' = (sync_all (sync_entity (some driver)) entities g).1 in
    let mirrored = nodes-mirrored driver entities g nodes_answer apart in
    let there = λ (id : ℕ). find-has_node entities g'.nodes id mirrored in
    let ends : All (Joins driver upper edges_answer g') relationships =
      All-map relationships
        (λ r h. ground (arith, there r.source_entity_id, there r.target_entity_id, h)) rooted in
    let counts = entities-synced driver entities g in
    let rest = relationships-synced driver upper edges_answer relationships g' ends in
    let same = same-nodes driver upper edges_answer relationships g' ends in
    record {
      all_entities = ap (λ x. x.0) counts;
      all_relationships = ap (λ x. x.0) rest;
      no_errors = rw (counts, rest) refl;
      nodes = All-map entities (λ e k. ap (λ ns. find (is_node (node_of e)) ns) same ∙ k) mirrored;
      edges = edges-mirrored driver upper edges_answer relationships g' ends;
    }
