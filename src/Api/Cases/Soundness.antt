-- ===== src/Api/Cases/Soundness.antt =====
-- backend/api/v1/routes/cases.py: the constraints of the case tables, and the cases themselves.
pub mod Handlers
use osint_platform_core.Base.{
  ℕ, ◌+◌, String, Bool, true, false, Option, none, some, List, [], ◌∷◌, ◌++◌, ◌≡◌, refl, arith,
  ◌==◌, ◌∙◌, str_in, any, not, keep, take, All, All-append, All-map, All-keep, any-append, any-keep,
  Bool-cases, Option-cases, inl, inr, ◌&&◌, ◌||◌, if◌then◌else◌, ==_iff, ==_refl, is_nil,
}
use osint_platform_core.Base.Rows.{find, find-any, update, All-update, any-update}
use osint_platform_core.Base.Apart.{AreApart, AreApart-append, AreApart-keep}
use osint_platform_core.Base.Http.{with_session-keeps}
use osint_platform_core.Storage.Queries.{
  get_all, create_record, get_by_id, update_record, delete_record,
}
use osint_platform_core.Ingestion.Store.{Entity}
use osint_platform_core.Api.Cases.Rows.{Case, CaseEntity, Db, CaseCreate, CaseUpdate}
use osint_platform_core.Api.Cases.{
  valid_statuses, valid_priorities, is_user, body_of_create_case, create_case, apply_update, allows,
  or_old, is_blank, written, body_of_update_case, update_case, body_of_delete_case, delete_case,
  get_case,
}
use osint_platform_core.Api.Cases.Entities.{
  is_pair, associate, body_of_add_entity, add_entity_to_case, dissociate, body_of_remove_entity,
  remove_entity_from_case,
}

abbrev pub IsValid : Case → Type 0
IsValid c = (str_in c.status valid_statuses ≡ true) × (str_in c.priority valid_priorities ≡ true)

abbrev pub same_pair : CaseEntity → CaseEntity → Bool
same_pair a b = a.case_id == b.case_id && a.entity_id == b.entity_id

abbrev has_case : List Case → ℕ → Bool
has_case cases id = any (λ c. c.id == id) cases

abbrev has_entity : List Entity → ℕ → Bool
has_entity entities id = any (λ e. e.id == id) entities

abbrev pub IsRooted : List Case → List Entity → CaseEntity → Type 0
IsRooted cases entities ce =
    (has_case cases ce.case_id ≡ true) × (has_entity entities ce.entity_id ≡ true)

-- Statuses and priorities are valid, an entity is associated with a case once at most, and an
-- association is one of a case and an entity that there are.
pub record IsSound (db : Db) : Type 0 where
  pub valid : All IsValid db.cases
  pub unique : AreApart same_pair db.case_entities
  pub rooted : All (IsRooted db.cases db.entities) db.case_entities

pub create-IsSound :
    (body : CaseCreate) (user_id : ℕ) (db : Db)
    → IsSound db
    → IsSound (body_of_create_case body user_id db).1
unfolding body_of_create_case create_record
create-IsSound body user_id db s = elim (Bool-cases (str_in body.status valid_statuses)) [
  | inr bad ↦ rw bad s
  | inl status ↦ elim (Bool-cases (str_in body.priority valid_priorities)) [
    | inr bad ↦ rw (status, bad) s
    | inl priority ↦ elim (Bool-cases (is_user body.assigned_to db.users)) [
      | inr bad ↦ rw (status, priority, bad) s
      | inl assigned ↦
          rw (status, priority, assigned)
            (record {
              valid = All-append IsValid db.cases _ s.valid ((status, priority), tt);
              unique = s.unique;
              rooted =
                  All-map db.case_entities
                    (λ ce h. (any-append (λ c. c.id == ce.case_id) db.cases _ h.0, h.1)) s.rooted;
            })
    ]
  ]
]

apply_update-IsValid :
    (body : CaseUpdate) (c : Case)
    → allows body.status valid_statuses ≡ true
    → allows body.priority valid_priorities ≡ true
    → IsValid c
    → IsValid (apply_update body c)
apply_update-IsValid body c status priority v = (
  allowed body.status valid_statuses c.status status v.0,
  allowed body.priority valid_priorities c.priority priority v.1,
)
  where
    allowed :
        (o : Option String) (values : List String) (old : String)
        → allows o values ≡ true
        → str_in old values ≡ true
        → str_in (or_old o old) values ≡ true
    allowed none values old h k = k
    allowed (some new) values old h k = h

module _ (body : CaseUpdate) (case_id : ℕ) (db : Db)
    (status : allows body.status valid_statuses ≡ true)
    (priority : allows body.priority valid_priorities ≡ true) (s : IsSound db) where
  updated : List Case
  updated = update (λ c. c.id == case_id) (apply_update body) db.cases

  updated-IsSound : IsSound (record db { cases = updated })
  unfolding updated
  updated-IsSound = record {
    valid =
        All-update (λ c. c.id == case_id) (apply_update body) IsValid db.cases
          (λ c v. apply_update-IsValid body c status priority v) s.valid;
    unique = s.unique;
    rooted =
        All-map db.case_entities
          (λ ce h. (
            any-update (λ c. c.id == case_id) (apply_update body) (λ c. c.id == ce.case_id) db.cases
                  (λ c. refl)
                ∙ h.0,
            h.1,
          ))
          s.rooted;
  }

  written-IsSound : (o : Option Case) → IsSound (written body (o, updated) db).1
  unfolding written
  written-IsSound none = s
  written-IsSound (some c) = elim (Bool-cases (is_user body.assigned_to db.users)) [
    | inl assigned ↦ rw assigned updated-IsSound
    | inr bad ↦ rw bad s
  ]

get_case-same : (case_id : ℕ) (db : Db) → (get_case case_id db).1 ≡ db
unfolding get_case
get_case-same case_id db = elim (Option-cases (get_by_id (λ c. c.id) case_id db.cases)) [
  | inl absent ↦ rw absent refl
  | inr (c, present) ↦ rw present refl
]

update_written :
    (case_id : ℕ) (body : CaseUpdate) (db : Db)
    → allows body.status valid_statuses ≡ true
    → allows body.priority valid_priorities ≡ true
    → IsSound db
    → IsSound (written body (update_record (λ c. c.id) case_id (apply_update body) db.cases) db).1
unfolding update_record updated
update_written case_id body db status priority s =
    written-IsSound body case_id db status priority s _

pub update-IsSound :
    (case_id : ℕ) (body : CaseUpdate) (db : Db)
    → IsSound db
    → IsSound (body_of_update_case case_id body db).1
unfolding body_of_update_case
update-IsSound case_id body db s = elim (Bool-cases (allows body.status valid_statuses)) [
  | inr bad ↦ rw bad s
  | inl status ↦ elim (Bool-cases (allows body.priority valid_priorities)) [
    | inr bad ↦ rw (status, bad) s
    | inl priority ↦ elim (Bool-cases (is_blank body)) [
      | inl blank ↦ rw (status, priority, blank) (rw (get_case-same case_id db) s)
      | inr changes ↦
          rw (status, priority, changes) (update_written case_id body db status priority s)
    ]
  ]
]

pub delete-IsSound :
    (case_id : ℕ) (db : Db) → IsSound db → IsSound (body_of_delete_case case_id db).1
unfolding body_of_delete_case delete_record
delete-IsSound case_id db s = elim (Bool-cases (delete_record (λ c. c.id) case_id db.cases).0) [
  | inl deleted ↦ rw deleted deleted-IsSound
  | inr absent ↦ rw absent deleted-IsSound
]
  where
    deleted-IsSound : IsSound (record db {
      cases = keep (λ c. not (c.id == case_id)) db.cases;
      case_entities = keep (λ ce. not (ce.case_id == case_id)) db.case_entities;
    })
    deleted-IsSound = record {
      valid = All-keep (λ c. not (c.id == case_id)) db.cases (λ c h v. v) s.valid;
      unique = AreApart-keep same_pair _ db.case_entities s.unique;
      rooted =
          All-keep (λ ce. not (ce.case_id == case_id)) db.case_entities
            (λ ce other h. (
              any-keep (λ c. c.id == ce.case_id) (λ c. not (c.id == case_id)) db.cases
                    (λ c same. ground (arith))
                  ∙ h.0,
              h.1,
            ))
            s.rooted;
    }
