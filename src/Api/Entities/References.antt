-- ===== src/Api/Entities/References.antt =====
-- backend/api/v1/routes/entities.py: the references to entities, on creation and update.
pub mod Handlers
use osint_platform_core.Base.{
  ℕ, Bool, true, false, Option, none, some, List, [], ◌∷◌, ◌++◌, ◌==◌, ◌≡◌, refl, arith, ap, ◌∙◌,
  not, keep, any, map, str_in, nat_in, All, All-map, All-append, All-keep, any-append, any-keep,
  Bool-cases, Option-cases, inl, inr, if◌then◌else◌, ◌&&◌, ◌||◌,
}
use osint_platform_core.Base.Rows.{update, find-any}
use osint_platform_core.Storage.Queries.{get_by_id, create_record, update_record, delete_record}
use osint_platform_core.Ingestion.Records.{valid_entity_types}
use osint_platform_core.Ingestion.Store.{Entity, Relationship}
use osint_platform_core.Api.Entities.{
  Db, EntityCreate, EntityUpdate, create_entity, or_404, apply_update, update_entity, detach,
  without, delete_entity, merge_found, merge_entities,
}
use osint_platform_core.Api.Entities.Merging.{merged, merge_loop-map}

abbrev pub has : List Entity → ℕ → Bool
has es id = any (λ e. e.id == id) es

-- a reference that may be null
abbrev pub has_optional : List Entity → Option ℕ → Bool
has_optional es none = true
has_optional es (some id) = has es id

abbrev pub has_ends : List Entity → Relationship → Bool
has_ends es r = has es r.source_entity_id && has es r.target_entity_id

-- The entity that another is a duplicate of, and both ends of a relationship, are in the table.
pub record AreRooted (db : Db) : Type 0 where
  pub pointers : All (λ e. has_optional db.entities e.canonical_id ≡ true) db.entities
  pub ends : All (λ r. has_ends db.entities r ≡ true) db.relationships

-- A table whose identifiers include those of another keeps what is rooted in it.
module _ (es es' : List Entity) (more : (id : ℕ) → has es id ≡ true → has es' id ≡ true) where
  optional-more : (o : Option ℕ) → has_optional es o ≡ true → has_optional es' o ≡ true
  optional-more none h = refl
  optional-more (some id) h = more id h

  ends-more : (r : Relationship) → has_ends es r ≡ true → has_ends es' r ≡ true
  ends-more r h =
      let s : has es r.source_entity_id ≡ true = ground (arith, h) in
      let t : has es r.target_entity_id ≡ true = ground (arith, h) in
      rw (more r.source_entity_id s, more r.target_entity_id t) refl

has-append : (es fs : List Entity) (id : ℕ) → has es id ≡ true → has (es ++ fs) id ≡ true
has-append es fs id h = any-append (λ e. e.id == id) es fs h

pub create-AreRooted :
    (body : EntityCreate) (user_id : ℕ) (db : Db)
    → AreRooted db
    → AreRooted (create_entity body user_id db).1
unfolding create_entity create_record
create-AreRooted body user_id db a =
    elim (Bool-cases (str_in body.entity_type valid_entity_types)) [
      | inr bad ↦ rw bad a
      | inl valid ↦ rw valid (record {
        pointers =
            All-append _ db.entities _
              (All-map db.entities
                (λ e. optional-more db.entities _ (has-append db.entities _) e.canonical_id)
                a.pointers)
              (refl, tt);
        ends = All-map db.relationships (ends-more db.entities _ (has-append db.entities _)) a.ends;
      })
    ]

-- A change of rows that keeps the identifiers.
module _ (f : Entity → Entity) (same : (e : Entity) → (f e).id ≡ e.id) where
  pub has-map : (es : List Entity) (id : ℕ) → has (map f es) id ≡ has es id
  has-map [] id = refl
  has-map (e ∷ es) id = rw (same e, has-map es id) refl

  pub All-mapped :
      (P Q : Entity → Type 0) (es : List Entity)
      → ((e : Entity) → P e → Q (f e))
      → All P es
      → All Q (map f es)
  All-mapped P Q [] h k = tt
  All-mapped P Q (e ∷ es) h k = (h e k.0, All-mapped P Q es h k.1)

  has-map_of : (es : List Entity) (id : ℕ) → has es id ≡ true → has (map f es) id ≡ true
  has-map_of es id h = has-map es id ∙ h

  -- If it keeps the pointers rooted, it keeps all references rooted.
  pub map-AreRooted :
      (db : Db)
      → ((e : Entity)
          → has_optional db.entities e.canonical_id ≡ true
          → has_optional db.entities (f e).canonical_id ≡ true)
      → AreRooted db
      → AreRooted (record db { entities = map f db.entities })
  map-AreRooted db kept a = record {
    pointers =
        All-mapped _ _ db.entities
          (λ e h.
            optional-more db.entities _ (has-map_of db.entities) (f e).canonical_id (kept e h))
          a.pointers;
    ends = All-map db.relationships (ends-more db.entities _ (has-map_of db.entities)) a.ends;
  }

abbrev if_is : ℕ → (Entity → Entity) → Entity → Entity
if_is id f e = if e.id == id then f e else e

update_is_map :
    (id : ℕ) (f : Entity → Entity) (es : List Entity)
    → update (λ e. e.id == id) f es ≡ map (if_is id f) es
update_is_map id f [] = refl
update_is_map id f (e ∷ es) = ap (λ rest. if_is id f e ∷ rest) (update_is_map id f es)

or_404-same : (o : Option Entity) (db : Db) → (or_404 o db).1 ≡ db
unfolding or_404
or_404-same none db = refl
or_404-same (some e) db = refl

updated-id :
    (id : ℕ) (body : EntityUpdate) (e : Entity) → (if_is id (apply_update body) e).id ≡ e.id
updated-id id body e = ground arith

updated-pointer :
    (id : ℕ) (body : EntityUpdate) (e : Entity)
    → (if_is id (apply_update body) e).canonical_id ≡ e.canonical_id
updated-pointer id body e = ground arith

pub update-AreRooted :
    (id : ℕ) (body : EntityUpdate) (db : Db) → AreRooted db → AreRooted (update_entity id body db).1
unfolding update_entity update_record
update-AreRooted id body db a = elim (Option-cases (get_by_id (λ e. e.id) id db.entities)) [
  | inl absent ↦ rw absent a
  | inr (e, present) ↦ rw present (
      rw (or_404-same _ _) (
        rw (update_is_map id (apply_update body) db.entities) (
          map-AreRooted (if_is id (apply_update body)) (updated-id id body) db
            (λ x h. rw (updated-pointer id body x) h) a)))
]
