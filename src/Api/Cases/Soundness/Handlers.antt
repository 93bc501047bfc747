-- ===== src/Api/Cases/Soundness/Handlers.antt =====
-- backend/api/v1/routes/cases.py: the constraints of the case tables, and the associations.
use osint_platform_core.Base.{
  ℕ, String, Bool, true, Option, none, some, List, [], ◌∷◌, ◌≡◌, refl, keep, take, All-append,
  All-keep, Bool-cases, inl, inr, is_nil,
}
use osint_platform_core.Base.Rows.{find-any, update}
use osint_platform_core.Base.Apart.{AreApart-append, AreApart-keep}
use osint_platform_core.Base.Http.{with_session-keeps}
use osint_platform_core.Storage.Queries.{get_all, create_record, get_by_id, delete_record}
use osint_platform_core.Ingestion.Store.{Entity}
use osint_platform_core.Api.Cases.Rows.{Case, CaseEntity, Db, CaseCreate, CaseUpdate}
use osint_platform_core.Api.Cases.{
  body_of_create_case, create_case, body_of_update_case, update_case, body_of_delete_case,
  delete_case,
}
use osint_platform_core.Api.Cases.Entities.{
  is_pair, associate, body_of_add_entity, add_entity_to_case, dissociate, body_of_remove_entity,
  remove_entity_from_case,
}
use osint_platform_core.Api.Cases.Soundness.{
  IsRooted, IsSound, same_pair, create-IsSound, update-IsSound, delete-IsSound,
}

pub first-nil :
    (ces : List CaseEntity) (p : CaseEntity → Bool)
    → is_nil (get_all 0 100 p ces) ≡ true
    → keep p ces ≡ []
unfolding get_all
first-nil ces p h = nil-take (keep p ces) h
  where
    nil-take : (xs : List CaseEntity) → is_nil (take 100 xs) ≡ true → xs ≡ []
    nil-take [] h = refl
    nil-take (x ∷ xs) h = absurd (cc)

associate-IsSound :
    (case_id entity_id user_id : ℕ) (notes : Option String) (db : Db) (c : Option Case)
    (e : Option Entity)
    → get_by_id (λ x. x.id) case_id db.cases ≡ c
    → get_by_id (λ x. x.id) entity_id db.entities ≡ e
    → IsSound db
    → IsSound (associate case_id entity_id user_id notes c e db).1
unfolding associate create_record get_by_id
associate-IsSound case_id entity_id user_id notes db none e found-c found-e s = s
associate-IsSound case_id entity_id user_id notes db (some c) none found-c found-e s = s
associate-IsSound case_id entity_id user_id notes db (some c) (some e) found-c found-e s =
    elim (Bool-cases (is_nil (get_all 0 100 (is_pair case_id entity_id) db.case_entities))) [
      | inr present ↦ rw present s
      | inl absent ↦ rw absent (record {
        valid = s.valid;
        unique =
            AreApart-append same_pair (is_pair case_id entity_id) _ (λ y h. h) db.case_entities
              (first-nil db.case_entities (is_pair case_id entity_id) absent) s.unique;
        rooted =
            All-append (IsRooted db.cases db.entities) db.case_entities _ s.rooted
              ((find-any _ db.cases c found-c, find-any _ db.entities e found-e), tt);
      })
    ]

dissociate-IsSound : (ces : List CaseEntity) (db : Db) → IsSound db → IsSound (dissociate ces db).1
unfolding dissociate delete_record
dissociate-IsSound [] db s = s
dissociate-IsSound (ce ∷ ces) db s = record {
  valid = s.valid;
  unique = AreApart-keep same_pair _ db.case_entities s.unique;
  rooted = All-keep _ db.case_entities (λ x h r. r) s.rooted;
}

add-IsSound :
    (case_id entity_id user_id : ℕ) (notes : Option String) (db : Db)
    → IsSound db
    → IsSound (body_of_add_entity case_id entity_id user_id notes db).1
unfolding body_of_add_entity
add-IsSound case_id entity_id user_id notes db s =
    associate-IsSound case_id entity_id user_id notes db (get_by_id (λ c. c.id) case_id db.cases)
      (get_by_id (λ e. e.id) entity_id db.entities) refl refl s

remove-IsSound :
    (case_id entity_id : ℕ) (db : Db)
    → IsSound db
    → IsSound (body_of_remove_entity case_id entity_id db).1
unfolding body_of_remove_entity
remove-IsSound case_id entity_id db s =
    dissociate-IsSound (get_all 0 100 (is_pair case_id entity_id) db.case_entities) db s

-- Whatever the handler answers, the tables after each handler of the router that writes satisfy the
-- constraints if the tables before did: statuses and priorities are valid, no entity is associated
-- with a case twice, and every association is one of a case and an entity that there are.
pub handlers-IsSound :
    (case_id entity_id user_id : ℕ) (notes : Option String) (create : CaseCreate)
    (update : CaseUpdate) (db : Db)
    → IsSound db
    → IsSound (create_case create user_id db).1
      × IsSound (update_case case_id update db).1
      × IsSound (delete_case case_id db).1
      × IsSound (add_entity_to_case case_id entity_id user_id notes db).1
      × IsSound (remove_entity_from_case case_id entity_id db).1
unfolding create_case update_case delete_case add_entity_to_case remove_entity_from_case
handlers-IsSound case_id entity_id user_id notes create update db s = (
  with_session-keeps IsSound (body_of_create_case create user_id) db s
      (create-IsSound create user_id db s),
  with_session-keeps IsSound (body_of_update_case case_id update) db s
      (update-IsSound case_id update db s),
  with_session-keeps IsSound (body_of_delete_case case_id) db s (delete-IsSound case_id db s),
  with_session-keeps IsSound (body_of_add_entity case_id entity_id user_id notes) db s
      (add-IsSound case_id entity_id user_id notes db s),
  with_session-keeps IsSound (body_of_remove_entity case_id entity_id) db s
      (remove-IsSound case_id entity_id db s),
)
