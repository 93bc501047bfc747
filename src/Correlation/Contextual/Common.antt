-- ===== src/Correlation/Contextual/Common.antt =====
-- backend/correlation/analyzers/contextual_analyzer.py: the sources and the neighbours that two
-- entities share.
use osint_platform_core.Base.{
  ℕ, Bool, true, false, not, some, List, [], ◌∷◌, ◌==◌, ==_iff, any, any_of_append, keep, map,
  nat_in, All, Bool-cases, inl, inr, ◌&&◌, ◌||◌, ◌≡◌, refl, ◌∙◌, ap, arith,
}
use osint_platform_core.Base.Apart.{AreApart, AreApart-keep}
use osint_platform_core.Ingestion.Store.{EntitySource, Relationship}
use osint_platform_core.Correlation.Contextual.{
  set_of, intersection, sources_of, find_shared_sources, neighbor_ids, find_common_relationships,
}

-- A test of numbers gives the same for equal ones.
same_test : (p : ℕ → Bool) (x n : ℕ) → (x == n) ≡ true → p x ≡ p n
same_test p x n h = ap p ((==_iff x n).0 h)

nat_in-keep : (n : ℕ) (p : ℕ → Bool) (xs : List ℕ) → nat_in n (keep p xs) ≡ (nat_in n xs && p n)
nat_in-keep n p [] = refl
nat_in-keep n p (x ∷ xs) = elim (Bool-cases (x == n)) [
  | inl same ↦ ground (arith, nat_in-keep n p xs, same_test p x n same, same)
  | inr other ↦ ground (arith, nat_in-keep n p xs, other)
]

nat_in-set_of : (n : ℕ) (xs : List ℕ) → nat_in n (set_of xs) ≡ nat_in n xs
unfolding set_of
nat_in-set_of n [] = refl
nat_in-set_of n (x ∷ xs) =
    ap (λ b. (x == n) || b) (nat_in-keep n (λ y. not (y == x)) (set_of xs))
    ∙ ground (arith, nat_in-set_of n xs)

set_of-AreApart : (xs : List ℕ) → AreApart ◌==◌ (set_of xs)
unfolding set_of
set_of-AreApart [] = tt
set_of-AreApart (x ∷ xs) = (
  kept_apart x (set_of xs),
  AreApart-keep ◌==◌ (λ y. not (y == x)) (set_of xs) (set_of-AreApart xs),
)
  where
    kept_apart : (x : ℕ) (ys : List ℕ) → All (λ y. (x == y) ≡ false) (keep (λ y. not (y == x)) ys)
    kept_apart x [] = tt
    kept_apart x (y ∷ ys) = elim (Bool-cases (y == x)) [
      | inl same ↦ rw same (kept_apart x ys)
      | inr other ↦ rw other (ground (arith, other), kept_apart x ys)
    ]

module _ {A : Type 0} (f : A → ℕ) (p : A → Bool) where
  nat_in-map-keep :
      (n : ℕ) (rows : List A) → nat_in n (map f (keep p rows)) ≡ any (λ r. p r && f r == n) rows
  nat_in-map-keep n [] = refl
  nat_in-map-keep n (r ∷ rows) = elim (Bool-cases (p r)) [
    | inl kept ↦ rw kept (ap (λ b. f r == n || b) (nat_in-map-keep n rows))
    | inr dropped ↦ rw dropped (nat_in-map-keep n rows)
  ]

nat_in-intersection :
    (n : ℕ) (xs ys : List ℕ) → nat_in n (intersection (set_of xs) ys) ≡ (nat_in n xs && nat_in n ys)
nat_in-intersection n xs ys =
    nat_in-keep n (λ x. nat_in x ys) (set_of xs) ∙ ap (λ b. b && nat_in n ys) (nat_in-set_of n xs)

-- The table links the entity to the source.
abbrev pub is_source_of : (entity_id : ℕ) → List EntitySource → (source_id : ℕ) → Bool
is_source_of entity_id rows source_id =
    any (λ (r : EntitySource). r.entity_id == entity_id && r.source_id == source_id) rows

-- The shared sources are those that the table links to both entities, each once.
pub find_shared_sources-both :
    (entity1_id entity2_id : ℕ) (rows : List EntitySource)
    → let shared = find_shared_sources entity1_id entity2_id (some rows) in
      AreApart ◌==◌ shared
      × ((s : ℕ)
          → nat_in s shared ≡ (is_source_of entity1_id rows s && is_source_of entity2_id rows s))
unfolding find_shared_sources
find_shared_sources-both entity1_id entity2_id rows =
    let left = sources_of entity1_id rows in
    let right = sources_of entity2_id rows in
    (
      AreApart-keep ◌==◌ (λ x. nat_in x (set_of right)) (set_of left) (set_of-AreApart left),
      λ s.
          nat_in-intersection s left (set_of right)
          ∙ ap (λ b. nat_in s left && b) (nat_in-set_of s right)
          ∙ ap (λ b. b && nat_in s right) (nat_in-map-keep _ _ s rows)
          ∙ ap (λ b. is_source_of entity1_id rows s && b) (nat_in-map-keep _ _ s rows),
    )

-- A relationship joins the two entities, in one direction or the other.
abbrev pub are_neighbors : (eid n : ℕ) → List Relationship → Bool
are_neighbors eid n rels =
    any
      (λ (r : Relationship).
        r.source_entity_id == eid && r.target_entity_id == n
        || r.target_entity_id == eid && r.source_entity_id == n)
      rels

any-or :
    {A : Type 0} (p q : A → Bool) (xs : List A) → (any p xs || any q xs) ≡ any (λ x. p x || q x) xs
any-or p q [] = refl
any-or p q (x ∷ xs) = ground (arith, any-or p q xs)

nat_in-neighbor_ids :
    (eid n : ℕ) (rels : List Relationship)
    → nat_in n (neighbor_ids eid rels) ≡ are_neighbors eid n rels
unfolding neighbor_ids
nat_in-neighbor_ids eid n rels =
    let targets =
      nat_in-map-keep (λ (r : Relationship). r.target_entity_id)
        (λ (r : Relationship). r.source_entity_id == eid) n rels in
    let sources =
      nat_in-map-keep (λ (r : Relationship). r.source_entity_id)
        (λ (r : Relationship). r.target_entity_id == eid) n rels in
    nat_in-set_of n _
    ∙ any_of_append (λ x. x == n)
        (map (λ (r : Relationship). r.target_entity_id)
          (keep (λ (r : Relationship). r.source_entity_id == eid) rels))
        _
    ∙ rw (targets, sources)
        (any-or (λ (r : Relationship). r.source_entity_id == eid && r.target_entity_id == n)
          (λ (r : Relationship). r.target_entity_id == eid && r.source_entity_id == n) rels)

-- The common neighbours are the other entities that a relationship joins with each of the two, in
-- whatever direction, each once.
pub find_common_relationships-both :
    (entity1_id entity2_id : ℕ) (rels : List Relationship)
    → let common = find_common_relationships entity1_id entity2_id (some rels) in
      AreApart ◌==◌ common
      × ((n : ℕ)
          → nat_in n common ≡ (
              are_neighbors entity1_id n rels
              && are_neighbors entity2_id n rels
              && (not (n == entity1_id) && not (n == entity2_id))))
unfolding find_common_relationships neighbor_ids
find_common_relationships-both entity1_id entity2_id rels =
    let left = neighbor_ids entity1_id rels in
    let right = neighbor_ids entity2_id rels in
    let apart : AreApart ◌==◌ left = set_of-AreApart _ in
    (
      AreApart-keep ◌==◌ _ (intersection left right)
          (AreApart-keep ◌==◌ (λ x. nat_in x right) left apart),
      λ n.
          nat_in-keep n (λ x. not (x == entity1_id) && not (x == entity2_id))
            (intersection left right)
          ∙ ground (
            arith,
            nat_in-keep n (λ x. nat_in x right) left,
            nat_in-neighbor_ids entity1_id n rels,
            nat_in-neighbor_ids entity2_id n rels,
          ),
    )
