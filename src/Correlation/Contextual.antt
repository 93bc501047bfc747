-- ===== src/Correlation/Contextual.antt =====
-- backend/correlation/analyzers/contextual_analyzer.py: the affinity of types, the overlap of
-- attributes, and what two entities have in common. A score is the pair of its parts, as in the
-- temporal analyzer, and an affinity counts tenths.
pub mod Common
pub mod Overlap
mod Examples
use osint_platform_core.Base.{
  ℕ, ◌+◌, ◌*◌, String, Bool, true, false, Option, none, some, List, [], ◌∷◌, ◌++◌, ◌==◌, not, keep,
  map, nat_in, str_in, str_eq, length, if◌then◌else◌, ◌&&◌, ◌||◌, is_nil,
}
use osint_platform_core.Base.Json.{Value, null, Dictionary, lookup}
use osint_platform_core.Ingestion.Records.{Dict}
use osint_platform_core.Ingestion.Store.{EntitySource, Relationship}
use osint_platform_core.Correlation.Temporal.{Fraction, zero_score}

pub type_affinity : Dictionary (Dictionary ℕ)
type_affinity =
    (
      "person",
      ("person", 7)
          ∷ ("organization", 6)
          ∷ ("email", 8)
          ∷ ("phone", 8)
          ∷ ("location", 5)
          ∷ ("cryptocurrency", 4)
          ∷ ("vehicle", 4)
          ∷ ("document", 5)
          ∷ [],
    )
    ∷ (
      "organization",
      ("organization", 7)
          ∷ ("person", 6)
          ∷ ("domain", 7)
          ∷ ("ip", 6)
          ∷ ("location", 5)
          ∷ ("email", 6)
          ∷ [],
    )
    ∷ ("ip", ("ip", 8) ∷ ("domain", 8) ∷ ("organization", 5) ∷ ("url", 7) ∷ [])
    ∷ ("domain", ("domain", 8) ∷ ("ip", 8) ∷ ("email", 7) ∷ ("url", 9) ∷ ("organization", 5) ∷ [])
    ∷ ("email", ("email", 9) ∷ ("person", 7) ∷ ("domain", 7) ∷ [])
    ∷ ("phone", ("phone", 8) ∷ ("person", 7) ∷ [])
    ∷ ("url", ("url", 8) ∷ ("domain", 9) ∷ ("ip", 6) ∷ [])
    ∷ ("hash", ("hash", 9) ∷ ("document", 6) ∷ [])
    ∷ ("cryptocurrency", ("cryptocurrency", 9) ∷ ("person", 4) ∷ ("organization", 4) ∷ [])
    ∷ ("location", ("location", 7) ∷ ("person", 5) ∷ ("organization", 5) ∷ [])
    ∷ ("vehicle", ("vehicle", 8) ∷ ("person", 4) ∷ [])
    ∷ ("document", ("document", 8) ∷ ("hash", 6) ∷ ("person", 4) ∷ [])
    ∷ []

abbrev row_or_empty : Option (Dictionary ℕ) → Dictionary ℕ
row_or_empty none = []
row_or_empty (some row) = row

abbrev or_tenth : Option ℕ → ℕ
or_tenth none = 1
or_tenth (some n) = n

unfoldable pub compute_type_affinity : (type1 type2 : String) → ℕ
unfolding type_affinity lookup
compute_type_affinity type1 type2 =
    or_tenth (lookup type2 (row_or_empty (lookup type1 type_affinity)))

abbrev pub keys : Dict → List String
keys attrs = map (λ kv. kv.0) attrs

abbrev pub common_keys : (keys1 keys2 : List String) → List String
common_keys keys1 keys2 = keep (λ k. str_in k keys2) keys1

abbrev pub all_keys : (keys1 keys2 : List String) → List String
all_keys keys1 keys2 = keys1 ++ keep (λ k. not (str_in k keys1)) keys2

abbrev or_null : Option Value → Value
or_null none = null
or_null (some v) = v

-- `to_str` is Python's `str` of a value.
module _ (to_str : Value → String) where
  unfoldable pub matching_values : (e1_attrs e2_attrs : Dict) → List String → List String
  unfolding lookup
  matching_values e1_attrs e2_attrs common =
      keep
        (λ k. str_eq (to_str (or_null (lookup k e1_attrs))) (to_str (or_null (lookup k e2_attrs))))
        common

  -- The mean of `common / all` and `matching / common`, over their common denominator.
  unfoldable pub compute_attribute_overlap : (e1_attrs e2_attrs : Dict) → Fraction
  unfolding matching_values
  compute_attribute_overlap e1_attrs e2_attrs =
      let common = common_keys (keys e1_attrs) (keys e2_attrs) in
      let c = length common in
      let a = length (all_keys (keys e1_attrs) (keys e2_attrs)) in
      let m = length (matching_values e1_attrs e2_attrs common) in
      if is_nil e1_attrs || is_nil e2_attrs
      then zero_score
      else if is_nil common
      then zero_score
      else record { part = c * c + m * a; whole = 2 * (a * c) }

-- `{x for x in xs}`, each once
unfoldable pub set_of : List ℕ → List ℕ
set_of [] = []
set_of (x ∷ xs) = x ∷ keep (λ y. not (y == x)) (set_of xs)

abbrev pub intersection : List ℕ → List ℕ → List ℕ
intersection xs ys = keep (λ x. nat_in x ys) xs

abbrev pub sources_of : (entity_id : ℕ) → List EntitySource → List ℕ
sources_of entity_id rows =
    map (λ (r : EntitySource). r.source_id)
      (keep (λ (r : EntitySource). r.entity_id == entity_id) rows)

-- The table, or none where a query raises.
unfoldable pub find_shared_sources :
    (entity1_id entity2_id : ℕ) → Option (List EntitySource) → List ℕ
unfolding set_of
find_shared_sources entity1_id entity2_id none = []
find_shared_sources entity1_id entity2_id (some rows) =
    intersection (set_of (sources_of entity1_id rows)) (set_of (sources_of entity2_id rows))

-- `union` lists a row once.
unfoldable pub neighbor_ids : (eid : ℕ) → List Relationship → List ℕ
unfolding set_of
neighbor_ids eid rels = set_of (
    map (λ (r : Relationship). r.target_entity_id)
      (keep (λ (r : Relationship). r.source_entity_id == eid) rels)
    ++ map (λ (r : Relationship). r.source_entity_id)
        (keep (λ (r : Relationship). r.target_entity_id == eid) rels))

unfoldable pub find_common_relationships :
    (entity1_id entity2_id : ℕ) → Option (List Relationship) → List ℕ
unfolding neighbor_ids
find_common_relationships entity1_id entity2_id none = []
find_common_relationships entity1_id entity2_id (some rels) =
    keep (λ n. not (n == entity1_id) && not (n == entity2_id))
      (intersection (neighbor_ids entity1_id rels) (neighbor_ids entity2_id rels))
