-- ===== src/Api/Entities/References/Handlers.antt =====
-- backend/api/v1/routes/entities.py: the references to entities, on merging and deletion.
use osint_platform_core.Base.{
  ℕ, true, false, List, ◌==◌, ◌≡◌, refl, arith, ◌∙◌, not, keep, map, nat_in, All-keep, any-keep,
  Bool-cases, Option-cases, inl, inr, ◌&&◌, ◌||◌,
}
use osint_platform_core.Base.Rows.{update, find-any}
use osint_platform_core.Storage.Queries.{get_by_id, delete_record}
use osint_platform_core.Ingestion.Store.{Entity, Relationship}
use osint_platform_core.Api.Entities.{
  Db, EntityCreate, EntityUpdate, create_entity, update_entity, detach, without, delete_entity,
  merge_found, merge_entities,
}
use osint_platform_core.Api.Entities.Merging.{merged, merge_loop-map}
use osint_platform_core.Api.Entities.References.{
  has, has_optional, has_ends, AreRooted, has-map, All-mapped, map-AreRooted, create-AreRooted,
  update-AreRooted,
}

merged-id : (canonical : ℕ) (ds : List ℕ) (e : Entity) → (merged canonical ds e).id ≡ e.id
merged-id canonical ds e = ground arith

merged-pointer :
    (canonical : ℕ) (ds : List ℕ) (es : List Entity)
    → has es canonical ≡ true
    → (e : Entity) → has_optional es e.canonical_id ≡ true
    → has_optional es (merged canonical ds e).canonical_id ≡ true
merged-pointer canonical ds es there e h =
    elim (Bool-cases (nat_in e.id ds && not (e.id == canonical))) [
      | inl hit ↦ rw hit there
      | inr other ↦ rw other h
    ]

merge-AreRooted :
    (canonical : ℕ) (ds : List ℕ) (db : Db)
    → AreRooted db
    → AreRooted (merge_entities canonical ds db).1
unfolding merge_entities merge_found get_by_id
merge-AreRooted canonical ds db a =
    elim (Option-cases (get_by_id (λ e. e.id) canonical db.entities)) [
      | inl absent ↦ rw absent a
      | inr (c, present) ↦
          let there = find-any (λ e. e.id == canonical) db.entities c present in
          rw present (
            rw (merge_loop-map canonical ds db.entities) (
              map-AreRooted (merged canonical ds) (merged-id canonical ds) db
                (merged-pointer canonical ds db.entities there) a))
    ]

detach-id : (id : ℕ) (e : Entity) → (detach id e).id ≡ e.id
detach-id id e = ground arith

-- what is left of the entities
abbrev left_of : ℕ → List Entity → List Entity
left_of id es = keep (λ e. not (e.id == id)) es

has-left_of :
    (id c : ℕ) (es : List Entity)
    → (c == id) ≡ false
    → has es c ≡ true
    → has (map (detach id) (left_of id es)) c ≡ true
has-left_of id c es other h =
    has-map (detach id) (detach-id id) (left_of id es) c
    ∙ any-keep (λ e. e.id == c) (λ e. not (e.id == id)) es (λ e k. ground (arith, k, other))
    ∙ h

detached :
    (id : ℕ) (es : List Entity) (e : Entity)
    → has_optional es e.canonical_id ≡ true
    → has_optional (map (detach id) (left_of id es)) (detach id e).canonical_id ≡ true
detached id es e h = elim (Option-cases e.canonical_id) [
  | inl none' ↦ rw none' refl
  | inr (c, points) ↦ elim (Bool-cases (c == id)) [
    | inl gone ↦ rw points (rw gone refl)
    | inr other ↦ rw points (rw other (has-left_of id c es other (rw points at h)))
  ]
]

left-ends :
    (id : ℕ) (es : List Entity) (r : Relationship)
    → not (r.source_entity_id == id || r.target_entity_id == id) ≡ true
    → has_ends es r ≡ true
    → has_ends (map (detach id) (left_of id es)) r ≡ true
left-ends id es r apart h =
    let s = has-left_of id r.source_entity_id es (ground (arith, apart)) (ground (arith, h)) in
    let t = has-left_of id r.target_entity_id es (ground (arith, apart)) (ground (arith, h)) in
    rw (s, t) refl

without-AreRooted : (id : ℕ) (db : Db) → AreRooted db → AreRooted (without id db)
unfolding delete_record
without-AreRooted id db a = record {
  pointers =
      All-mapped (detach id) (detach-id id) _ _ (left_of id db.entities)
        (λ e h. detached id db.entities e h)
        (All-keep (λ e. not (e.id == id)) db.entities (λ e k h. h) a.pointers);
  ends = All-keep _ db.relationships (λ r k h. left-ends id db.entities r k h) a.ends;
}

delete-AreRooted : (id : ℕ) (db : Db) → AreRooted db → AreRooted (delete_entity id db).1
unfolding delete_entity
delete-AreRooted id db a = elim (Bool-cases (delete_record (λ e. e.id) id db.entities).0) [
  | inl deleted ↦ rw deleted (without-AreRooted id db a)
  | inr absent ↦ rw absent a
]

-- Whatever the handlers answer, creating, updating, merging and deleting entities keep every
-- reference rooted: the entity that a duplicate points at, and both ends of every relationship, are
-- in the table.
pub handlers-AreRooted :
    (create : EntityCreate) (user_id id : ℕ) (update : EntityUpdate) (duplicates : List ℕ) (db : Db)
    → AreRooted db
    → AreRooted (create_entity create user_id db).1
      × AreRooted (update_entity id update db).1
      × AreRooted (merge_entities id duplicates db).1
      × AreRooted (delete_entity id db).1
handlers-AreRooted create user_id id update duplicates db a = (
  create-AreRooted create user_id db a,
  update-AreRooted id update db a,
  merge-AreRooted id duplicates db a,
  delete-AreRooted id db a,
)
