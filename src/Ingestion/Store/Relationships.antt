-- ===== src/Ingestion/Store/Relationships.antt =====
-- backend/ingestion/queue/processor.py, `extract_relationships` and `store_relationships`.
use osint_platform_core.Base.{
  min, ℕ, ◌+◌, String, Option, none, some, true, List, [], ◌∷◌, ◌++◌, ◌==◌, str_eq, keep, ◌&&◌,
}
use osint_platform_core.Base.Http.{Outcome, ok, Handler, pure, ◌>>=◌}
use osint_platform_core.Ingestion.Records.{NormalizedRecord}
use osint_platform_core.Ingestion.Store.{
  Entity, Relationship, Db, Postgres, flush, execute, scalar_one_or_none, is_canonical_of,
}

-- A relationship as `extract_relationships` drafts it.
pub record Draft : Type 0 where
  pub source_entity_name : String
  pub source_entity_type : String
  pub target_entity_name : String
  pub target_entity_type : String
  pub relationship_type : String
  pub confidence_score : ℕ

-- A link between each entity and the next one of the same record.
unfoldable pub extract_relationships : List NormalizedRecord → List Draft
extract_relationships [] = []
extract_relationships (a ∷ []) = []
extract_relationships (a ∷ b ∷ rest) =
    record {
      source_entity_name = a.name;
      source_entity_type = a.entity_type;
      target_entity_name = b.name;
      target_entity_type = b.entity_type;
      relationship_type = "associated_with";
      confidence_score = min a.confidence b.confidence;
    }
    ∷ extract_relationships (b ∷ rest)

insert_relationship : (source target : ℕ) → Draft → Handler Db (Option ℕ)
insert_relationship source target d db = (
  ok (some db.next_id),
  record db {
    relationships =
        db.relationships
        ++ record {
          id = db.next_id;
          source_entity_id = source;
          target_entity_id = target;
          relationship_type = d.relationship_type;
          attributes = [];
          is_directed = true;
          source_id = none;
          confidence_score = d.confidence_score;
        }
          ∷ [];
    next_id = db.next_id + 1;
  },
)

unless_duplicate :
    Postgres → (source target : ℕ) → Draft → Option Relationship → Handler Db (Option ℕ)
unfolding insert_relationship flush
unless_duplicate pg source target d none = do
  id ← insert_relationship source target d
  _ ← flush pg
  pure id
unless_duplicate pg source target d (some dup) = pure none

between : Postgres → Draft → Option Entity → Option Entity → Handler Db (Option ℕ)
unfolding unless_duplicate execute
between pg d (some s) (some t) = do
  rows ← execute pg none (λ db.
      keep
        (λ r.
          r.source_entity_id == s.id
          && r.target_entity_id == t.id
          && str_eq r.relationship_type d.relationship_type)
        db.relationships)
  dup ← scalar_one_or_none rows
  unless_duplicate pg s.id t.id d dup
between pg d _ _ = pure none

-- The canonical entities of a type and a name.
named : Postgres → (entity_type name : String) → Handler Db (List Entity)
unfolding execute
named pg entity_type name =
    execute pg (pg.refuses_query entity_type name)
      (λ db. keep (is_canonical_of entity_type name) db.entities)

-- The body of the loop of `store_relationships`; `none` where the loop goes on with the next.
pub store_relationship : Postgres → Draft → Handler Db (Option ℕ)
unfolding between named
store_relationship pg d = do
  sources ← named pg d.source_entity_type d.source_entity_name
  source ← scalar_one_or_none sources
  targets ← named pg d.target_entity_type d.target_entity_name
  target ← scalar_one_or_none targets
  between pg d source target

-- An error is logged, and the loop goes on.
abbrev caught : Outcome (Option ℕ) → List ℕ → List ℕ
caught (ok (some id)) ids = id ∷ ids
caught _ ids = ids

unfoldable pub store_relationships : Postgres → List Draft → Db → List ℕ × Db
store_relationships pg [] db = ([], db)
store_relationships pg (d ∷ ds) db =
    let (r, db') = store_relationship pg d db in
    let (ids, db'') = store_relationships pg ds db' in (caught r ids, db'')
