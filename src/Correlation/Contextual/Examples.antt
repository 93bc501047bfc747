-- ===== src/Correlation/Contextual/Examples.antt =====
-- The contextual analyzer at concrete inputs.
use osint_platform_core.Base.{
  ℕ, ◌≤◌, ◌<◌, String, true, not, none, some, List, [], ◌∷◌, ◌==◌, nat_in, ◌&&◌, ◌≡◌, refl,
}
use osint_platform_core.Base.Apart.{AreApart}
use osint_platform_core.Base.Json.{Value, null, text}
use osint_platform_core.Ingestion.Records.{Dict}
use osint_platform_core.Ingestion.Store.{EntitySource, Relationship}
use osint_platform_core.Correlation.Contextual.{
  compute_type_affinity, compute_attribute_overlap, find_shared_sources, find_common_relationships,
}
use osint_platform_core.Correlation.Contextual.Common.{
  are_neighbors, find_common_relationships-both,
}
use osint_platform_core.Correlation.Contextual.Overlap.{compute_attribute_overlap-bounds}

-- The matrix is not symmetric.
affinity : compute_type_affinity "organization" "email" ≡ 6
unfolding compute_type_affinity
affinity = refl

affinity_back : compute_type_affinity "email" "organization" ≡ 1
unfolding compute_type_affinity
affinity_back = refl

abbrev link : (entity source : ℕ) → EntitySource
link entity source = record {
  entity_id = entity;
  source_id = source;
  raw_data = [];
  confidence_score = 1000000;
}

abbrev links : List EntitySource
links = link 1 8 ∷ link 2 8 ∷ link 1 9 ∷ link 1 8 ∷ []

shared : find_shared_sources 1 2 (some links) ≡ 8 ∷ []
unfolding find_shared_sources
shared = refl

abbrev edge : (id source target : ℕ) → Relationship
edge id source target = record {
  id = id;
  source_entity_id = source;
  target_entity_id = target;
  relationship_type = "knows";
  attributes = [];
  confidence_score = 1000000;
  is_directed = true;
  source_id = none;
}

abbrev edges : List Relationship
edges = edge 10 1 3 ∷ edge 11 3 2 ∷ edge 12 1 2 ∷ edge 13 2 2 ∷ []

-- 2 is a neighbour of both as well, but is one of the two.
common : find_common_relationships 1 2 (some edges) ≡ 3 ∷ []
unfolding find_common_relationships
common = refl

find_common_relationships-both_example :
    AreApart ◌==◌ (find_common_relationships 1 2 (some edges))
    × ((n : ℕ)
        → nat_in n (find_common_relationships 1 2 (some edges))
          ≡ (are_neighbors 1 n edges && are_neighbors 2 n edges && (not (n == 1) && not (n == 2))))
find_common_relationships-both_example = find_common_relationships-both 1 2 edges

abbrev shown : Value → String
shown (text s) = s
shown _ = "None"

abbrev first : Dict
first = ("city", text "Oslo") ∷ ("phone", text "1") ∷ []

abbrev second : Dict
second = ("phone", text "1") ∷ ("city", text "Bergen") ∷ ("age", null) ∷ []

-- Two of three keys, and one of two values: 7/12.
overlap : compute_attribute_overlap shown first second ≡ (record { part = 7; whole = 12 })
unfolding compute_attribute_overlap
overlap = refl

compute_attribute_overlap-bounds_example :
    let s = compute_attribute_overlap shown first second in
    (s.part ≤ s.whole) × (0 < s.whole) × (s ≡ compute_attribute_overlap shown second first)
compute_attribute_overlap-bounds_example =
    compute_attribute_overlap-bounds shown first second ((refl, tt), (tt, tt))
      ((refl, (refl, tt)), ((refl, tt), (tt, tt)))
