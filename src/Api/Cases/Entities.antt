-- ===== src/Api/Cases/Entities.antt =====
-- backend/api/v1/routes/cases.py, "Case entity management": the entities associated with a case.
use osint_platform_core.Base.{
  ℕ, ◌+◌, String, Bool, Option, none, some, List, [], ◌∷◌, ◌==◌, if◌then◌else◌, ◌&&◌, is_nil,
}
use osint_platform_core.Base.Http.{
  Outcome, ok, unhandled, Handler, fail, gets, ◌>>=◌, with_session, traverse,
}
use osint_platform_core.Storage.Queries.{get_all, create_record, get_by_id, delete_record}
use osint_platform_core.Ingestion.Store.{Entity}
use osint_platform_core.Api.Cases.Rows.{Case, CaseEntity, Db}
use osint_platform_core.Api.Cases.{found_or_404}

pub record CaseEntityResponse : Type 0 where
  pub id : ℕ
  pub case_id : ℕ
  pub entity_id : ℕ
  pub added_by : ℕ
  pub notes : Option String
  pub entity_name : Option String
  pub entity_type : Option String

abbrev pub is_pair : (case_id entity_id : ℕ) → CaseEntity → Bool
is_pair case_id entity_id ce = ce.case_id == case_id && ce.entity_id == entity_id

abbrev pub case_entity_from : (id case_id entity_id user_id : ℕ) → Option String → CaseEntity
case_entity_from id case_id entity_id user_id notes = record {
  id = id;
  case_id = case_id;
  entity_id = entity_id;
  added_by = some user_id;
  notes = notes;
}

-- from the case and the entity that were found
unfoldable pub associate :
    (case_id entity_id user_id : ℕ)
    → (notes : Option String) → Option Case
    → Option Entity
    → Handler Db CaseEntityResponse
unfolding get_all create_record
associate case_id entity_id user_id notes none e db = fail 404 "Case not found" db
associate case_id entity_id user_id notes (some c) none db = fail 404 "Entity not found" db
associate case_id entity_id user_id notes (some c) (some e) db =
    if is_nil (get_all 0 100 (is_pair case_id entity_id) db.case_entities)
    then (
      ok (record {
        id = db.next_id;
        case_id = case_id;
        entity_id = entity_id;
        added_by = user_id;
        notes = notes;
        entity_name = some e.name;
        entity_type = some e.entity_type;
      }),
      record db {
        case_entities =
            create_record (case_entity_from db.next_id case_id entity_id user_id notes)
              db.case_entities;
        next_id = db.next_id + 1;
      },
    )
    else fail 409 "Entity is already associated with this case" db

unfoldable pub body_of_add_entity :
    (case_id entity_id user_id : ℕ) → (notes : Option String) → Handler Db CaseEntityResponse
unfolding associate get_by_id
body_of_add_entity case_id entity_id user_id notes db =
    associate case_id entity_id user_id notes (get_by_id (λ c. c.id) case_id db.cases)
      (get_by_id (λ e. e.id) entity_id db.entities) db

unfoldable pub add_entity_to_case :
    (case_id entity_id user_id : ℕ) → (notes : Option String) → Handler Db CaseEntityResponse
unfolding with_session body_of_add_entity
add_entity_to_case case_id entity_id user_id notes =
    with_session (body_of_add_entity case_id entity_id user_id notes)

-- `entity.name if entity else None`; the response requires who added the entity.
unfoldable pub response_of : CaseEntity → Option Entity → Outcome CaseEntityResponse
response_of ce e = elim ce.added_by [
  | none ↦ unhandled "ValidationError"
  | some user_id ↦ ok (record {
    id = ce.id;
    case_id = ce.case_id;
    entity_id = ce.entity_id;
    added_by = user_id;
    notes = ce.notes;
    entity_name = elim e [ none ↦ none | some entity ↦ some entity.name ];
    entity_type = elim e [ none ↦ none | some entity ↦ some entity.entity_type ];
  })
]

unfoldable pub list_case_entities : (case_id : ℕ) → Handler Db (List CaseEntityResponse)
unfolding get_by_id get_all traverse response_of found_or_404
list_case_entities case_id = do
  found ← gets (λ db. get_by_id (λ c. c.id) case_id db.cases)
  _ ← found_or_404 "Case not found" found
  λ db. (
    traverse (λ ce. response_of ce (get_by_id (λ e. e.id) ce.entity_id db.entities))
        (get_all 0 100 (λ ce. ce.case_id == case_id) db.case_entities),
    db,
  )

-- from the associations that were found
unfoldable pub dissociate : List CaseEntity → Handler Db (Unit {0})
unfolding delete_record
dissociate [] db = fail 404 "Case-entity association not found" db
dissociate (ce ∷ ces) db =
    (ok tt, record db { case_entities = (delete_record (λ x. x.id) ce.id db.case_entities).1 })

unfoldable pub body_of_remove_entity : (case_id entity_id : ℕ) → Handler Db (Unit {0})
unfolding get_all dissociate
body_of_remove_entity case_id entity_id db =
    dissociate (get_all 0 100 (is_pair case_id entity_id) db.case_entities) db

unfoldable pub remove_entity_from_case : (case_id entity_id : ℕ) → Handler Db (Unit {0})
unfolding with_session body_of_remove_entity
remove_entity_from_case case_id entity_id = with_session (body_of_remove_entity case_id entity_id)
