-- ===== src/Storage/GraphSync/Mirror.antt =====
-- backend/storage/database/graph/graph_sync.py, `full_sync`: its counts, and what is in the graph after it.
use osint_platform_core.Base.{
  ℕ, ◌+◌, String, Bool, true, false, Option, none, some, List, [], ◌∷◌, ◌==◌, str_eq_refl, any,
  length, All, All-map, Bool-cases, inl, inr, if◌then◌else◌, ◌&&◌, ◌||◌, ◌≡◌, refl, ◌∙◌, ap, arith,
}
use osint_platform_core.Base.Apart.{AreApart}
use osint_platform_core.Base.Rows.{find, update, find-append, or_else}
use osint_platform_core.Ingestion.Store.{Entity, Relationship}
use osint_platform_core.Storage.GraphSync.{
  Node, Graph, Driver, node_of, edge_of, is_node, has_node, merge_node, merge_edge, run_query,
  sync_entity, create_relationship, sync_relationship, sync_all, full_sync,
}

module _ {A : Type 0} (q : A → Bool) (n : A) where
  find-set : (xs : List A) → q n ≡ true → any q xs ≡ true → find q (update q (λ m. n) xs) ≡ some n
  find-set [] h k = cc
  find-set (x ∷ xs) h k = elim (Bool-cases (q x)) [
    | inl here ↦ rw here (rw h refl)
    | inr other ↦ rw other (rw other (find-set xs h (rw other at k)))
  ]

  find-set_other :
      (p : A → Bool) (xs : List A)
      → ((x : A) → q x ≡ true → p x ≡ false)
      → p n ≡ false
      → find p (update q (λ m. n) xs) ≡ find p xs
  find-set_other p [] apart h = refl
  find-set_other p (x ∷ xs) apart h = elim (Bool-cases (q x)) [
    | inl here ↦ rw here (rw (h, apart x here) (find-set_other p xs apart h))
    | inr other ↦ rw other (ap (λ o. if p x then some x else o) (find-set_other p xs apart h))
  ]

  pub any-set :
      (p : A → Bool) (xs : List A)
      → ((x : A) → q x ≡ true → p n ≡ p x)
      → any p (update q (λ m. n) xs) ≡ any p xs
  any-set p [] same = refl
  any-set p (x ∷ xs) same = elim (Bool-cases (q x)) [
    | inl here ↦ rw here (rw (same x here) (ap (λ b. p x || b) (any-set p xs same)))
    | inr other ↦ rw other (ap (λ b. p x || b) (any-set p xs same))
  ]

find-missing : {A : Type 0} (p : A → Bool) (xs : List A) → any p xs ≡ false → find p xs ≡ none
find-missing p [] h = refl
find-missing p (x ∷ xs) h = ground (arith, find-missing p xs, h)

or_else-none : {A : Type 0} (o : Option A) → or_else o none ≡ o
or_else-none none = refl
or_else-none (some x) = refl

is_node_self : (n : Node) → is_node n n ≡ true
is_node_self n = ground (arith, str_eq_refl n.label)

find-merge_node : (n : Node) (nodes : List Node) → find (is_node n) (merge_node n nodes) ≡ some n
unfolding merge_node
find-merge_node n nodes = elim (Bool-cases (any (is_node n) nodes)) [
  | inl there ↦ rw there (find-set (is_node n) n nodes (is_node_self n) there)
  | inr missing ↦ rw missing (
      find-append (is_node n) nodes (n ∷ [])
      ∙ rw (find-missing (is_node n) nodes missing) (rw (is_node_self n) refl))
]

find-merge_node_other :
    (n m : Node) (nodes : List Node)
    → (n.id == m.id) ≡ false
    → find (is_node n) (merge_node m nodes) ≡ find (is_node n) nodes
unfolding merge_node
find-merge_node_other n m nodes apart = elim (Bool-cases (any (is_node m) nodes)) [
  | inl there ↦ rw there (
      find-set_other (is_node m) m (is_node n) nodes (λ x h. ground (arith, h, apart))
        (ground (arith, apart)))
  | inr missing ↦
      let other : is_node n m ≡ false = ground (arith, apart) in
      rw missing
        (find-append (is_node n) nodes (m ∷ []) ∙ rw other (or_else-none (find (is_node n) nodes)))
]

module _ (driver : Driver) where
  pub entities-synced :
      (es : List Entity) (g : Graph)
      → (sync_all (sync_entity (some driver)) es g).0 ≡ (length es, 0)
  unfolding sync_all sync_entity
  entities-synced [] g = refl
  entities-synced (e ∷ es) g =
      let rest = entities-synced es (run_query driver e g).1 in
      rw rest (ap (λ n. (n, 0)) (let k : length es + 1 ≡ length (e ∷ es) = omega arith in k))

  nodes-unanswered :
      (es : List Entity) (g : Graph)
      → ((id : ℕ) → driver.entity_query id ≡ false)
      → (sync_all (sync_entity (some driver)) es g).1 ≡ g
  unfolding sync_all sync_entity run_query
  nodes-unanswered [] g h = refl
  nodes-unanswered (e ∷ es) g h = rw (h e.id) (nodes-unanswered es g h)

  -- The node of an entity is left as it is when other entities are synchronised.
  find-kept :
      (n : Node) (es : List Entity) (g : Graph)
      → ((id : ℕ) → driver.entity_query id ≡ true)
      → All (λ e. (n.id == e.id) ≡ false) es
      → find (is_node n) (sync_all (sync_entity (some driver)) es g).1.nodes
        ≡ find (is_node n) g.nodes
  unfolding sync_all sync_entity run_query
  find-kept n [] g h apart = refl
  find-kept n (e ∷ es) g h apart = rw (h e.id) (
      find-kept n es (record g { nodes = merge_node (node_of e) g.nodes }) h apart.1
      ∙ find-merge_node_other n (node_of e) g.nodes apart.0)

  -- Every entity has its node.
  pub nodes-mirrored :
      (es : List Entity) (g : Graph)
      → ((id : ℕ) → driver.entity_query id ≡ true)
      → AreApart (λ (x y : Entity). x.id == y.id) es
      → All
          (λ e.
            find (is_node (node_of e)) (sync_all (sync_entity (some driver)) es g).1.nodes
            ≡ some (node_of e))
          es
  unfolding sync_all sync_entity run_query
  nodes-mirrored [] g h a = tt
  nodes-mirrored (e ∷ es) g h a =
      let g' : Graph = record g { nodes = merge_node (node_of e) g.nodes } in
      let step : (sync_all (sync_entity (some driver)) (e ∷ es) g).1
          ≡ (sync_all (sync_entity (some driver)) es g').1 =
        rw (h e.id) refl in
      (
        ap (λ w. find (is_node (node_of e)) w.nodes) step
            ∙ find-kept (node_of e) es g' h a.0
            ∙ find-merge_node (node_of e) g.nodes,
        All-map es (λ x k. ap (λ w. find (is_node (node_of x)) w.nodes) step ∙ k)
            (nodes-mirrored es g' h a.1),
      )

  module _ (upper : String → String) where
    relationships-counted :
        (rs : List Relationship) (g : Graph)
        → let (counts, after) = sync_all (sync_relationship upper (some driver)) rs g in
          counts.0 + counts.1 ≡ length rs
    unfolding sync_all
    relationships-counted [] g = refl
    relationships-counted (r ∷ rs) g =
        let (success, g') = sync_relationship upper (some driver) r g in
        let rest = relationships-counted rs g' in
        elim (Bool-cases (sync_relationship upper (some driver) r g).0) [
          | inl synced ↦ rw synced (omega (arith, rest))
          | inr failed ↦ rw failed (omega (arith, rest))
        ]

    full_sync-counts :
        (entities : List Entity) (relationships : List Relationship) (g : Graph)
        → let s = (full_sync upper (some driver) entities relationships g).0 in
          (s.entities_synced ≡ length entities)
          × (s.relationships_synced + s.errors ≡ length relationships)
    unfolding full_sync
    full_sync-counts entities relationships g =
        let counts = entities-synced entities g in
        let g' = (sync_all (sync_entity (some driver)) entities g).1 in
        let rest = relationships-counted relationships g' in rw counts (refl, omega (arith, rest))

    same-nodes :
        (rs : List Relationship) (g : Graph)
        → (sync_all (sync_relationship upper (some driver)) rs g).1.nodes ≡ g.nodes
    unfolding sync_all sync_relationship create_relationship
    same-nodes [] g = refl
    same-nodes (r ∷ rs) g =
        elim (Bool-cases (
          driver.relationship_query r.id
          && (has_node r.source_entity_id g.nodes && has_node r.target_entity_id g.nodes))) [
            | inl answered ↦
                rw answered
                  (same-nodes rs (record g { edges = merge_edge (edge_of upper r) g.edges }))
            | inr failed ↦ rw failed (same-nodes rs g)
          ]

    -- If Neo4j answers no query for an entity, the summary counts all entities as synchronised, and the
    -- nodes are what they were.
    pub full_sync-unanswered :
        (entities : List Entity) (relationships : List Relationship) (g : Graph)
        → ((id : ℕ) → driver.entity_query id ≡ false)
        → let (s, after) = full_sync upper (some driver) entities relationships g in
          (s.entities_synced ≡ length entities)
          × (s.relationships_synced + s.errors ≡ length relationships)
          × (after.nodes ≡ g.nodes)
    unfolding full_sync
    full_sync-unanswered entities relationships g h =
        let (counted, rest) = full_sync-counts entities relationships g in
        let unchanged = nodes-unanswered entities g h in
        (counted, rest, same-nodes relationships _ ∙ ap (λ x. x.nodes) unchanged)
