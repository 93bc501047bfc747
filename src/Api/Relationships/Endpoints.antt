-- ===== src/Api/Relationships/Endpoints.antt =====
-- backend/api/v1/routes/relationships.py: the ends of the relationships, and where a new one is found.
use osint_platform_core.Base.{
  ℕ, ◌+◌, Bool, true, false, Option, none, some, [], ◌∷◌, ◌++◌, ◌==◌, All-append, All-keep,
  Bool-cases, inl, inr, ◌≡◌, refl,
}
use osint_platform_core.Base.Rows.{update, find-any, All-update}
use osint_platform_core.Base.Http.{Outcome, ok}
use osint_platform_core.Storage.Queries.{get_by_id, create_record, update_record, delete_record}
use osint_platform_core.Ingestion.Store.{Entity, Relationship}
use osint_platform_core.Api.Entities.{Db}
use osint_platform_core.Api.Entities.References.{AreRooted, has}
use osint_platform_core.Api.Relationships.{
  RelationshipCreate, RelationshipUpdate, relationship_from, refers, created_between,
  create_relationship, apply_update, is_blank, update_relationship, delete_relationship,
}

-- The looked-up rows of a creation.
abbrev row_of : ℕ → Db → Option Entity
row_of id db = get_by_id (λ e. e.id) id db.entities

found-has : (id : ℕ) (e : Entity) (db : Db) → row_of id db ≡ some e → has db.entities id ≡ true
unfolding get_by_id
found-has id e db h = find-any (λ x. x.id == id) db.entities e h

created-AreRooted :
    (is_source : ℕ → Bool) (body : RelationshipCreate) (src tgt : Option Entity) (db : Db)
    → row_of body.source_entity_id db ≡ src
    → row_of body.target_entity_id db ≡ tgt
    → AreRooted db
    → AreRooted (created_between is_source body src tgt db).1
unfolding created_between create_record
created-AreRooted is_source body none tgt db h k a = a
created-AreRooted is_source body (some s) none db h k a = a
created-AreRooted is_source body (some s) (some t) db h k a =
    elim (Bool-cases (refers is_source body.source_id)) [
      | inr unknown ↦ rw unknown a
      | inl known ↦ rw known (record {
        pointers = a.pointers;
        ends = All-append _ db.relationships _ a.ends (
          rw (found-has body.source_entity_id s db h, found-has body.target_entity_id t db k) refl,
          tt,
        );
      })
    ]

update-AreRooted :
    (rel_id : ℕ) (body : RelationshipUpdate) (db : Db)
    → AreRooted db
    → AreRooted (update_relationship rel_id body db).1
unfolding update_relationship update_record apply_update
update-AreRooted rel_id body db a = elim (Bool-cases (is_blank body)) [
  | inl blank ↦ rw blank a
  | inr given ↦ rw given (record {
    pointers = a.pointers;
    ends = All-update (λ r. r.id == rel_id) _ _ db.relationships (λ r h. h) a.ends;
  })
]

delete-AreRooted :
    (rel_id : ℕ) (db : Db) → AreRooted db → AreRooted (delete_relationship rel_id db).1
unfolding delete_relationship delete_record
delete-AreRooted rel_id db a =
    elim (Bool-cases (delete_record (λ r. r.id) rel_id db.relationships).0) [
      | inl deleted ↦
          rw deleted (record {
            pointers = a.pointers;
            ends = All-keep _ db.relationships (λ r k h. h) a.ends;
          })
      | inr absent ↦ rw absent a
    ]

-- Whatever the handlers answer, creating, updating and deleting relationships keep every reference
-- rooted: both ends of every relationship, and every entity that a duplicate points at, are in the
-- table.
pub relationship_handlers-AreRooted :
    (is_source : ℕ → Bool) (create : RelationshipCreate) (rel_id : ℕ) (update : RelationshipUpdate)
    (db : Db)
    → AreRooted db
    → AreRooted (create_relationship is_source create db).1
      × AreRooted (update_relationship rel_id update db).1
      × AreRooted (delete_relationship rel_id db).1
unfolding create_relationship
relationship_handlers-AreRooted is_source create rel_id update db a = (
  created-AreRooted is_source create _ _ db refl refl a,
  update-AreRooted rel_id update db a,
  delete-AreRooted rel_id db a,
)

-- What a creation that was answered has done.
record IsCreated (is_source : ℕ → Bool) (body : RelationshipCreate) (db : Db) (r : Relationship)
    : Type 0 where
  source : Entity
  target : Entity
  source_row : row_of body.source_entity_id db ≡ some source
  target_row : row_of body.target_entity_id db ≡ some target
  same : r ≡ relationship_from body db.next_id
  after :
      (create_relationship is_source body db).1
      ≡ (record db { relationships = db.relationships ++ r ∷ []; next_id = db.next_id + 1 })

abbrev succeeded : Outcome Relationship → Bool
succeeded (ok r) = true
succeeded _ = false
