-- ===== src/Api/Cases/Membership.antt =====
-- backend/api/v1/routes/cases.py: sequences of requests on cases and their entities.
use mathlib.Core.List.{append-nil}
use osint_platform_core.Base.{
  ℕ, ◌+◌, String, Bool, true, false, Option, none, some, List, [], ◌∷◌, ◌++◌, ◌≡◌, refl, ◌==◌, ◌∙◌,
  ap, sym, not, keep, keep-append, keep-All, take, All, All-map, Bool-cases, inl, inr, ==_refl,
  is_nil,
}
use osint_platform_core.Base.Http.{ok, http_exception, with_session-ok, with_session}
use osint_platform_core.Storage.Queries.{get_all, create_record, get_by_id, delete_record}
use osint_platform_core.Ingestion.Store.{Entity}
use osint_platform_core.Api.Cases.Rows.{Case, CaseEntity, Db}
use osint_platform_core.Api.Cases.{found_or_404, get_case, delete_case, body_of_delete_case}
use osint_platform_core.Api.Cases.Soundness.Handlers.{first-nil}
use osint_platform_core.Api.Cases.Entities.{
  CaseEntityResponse, is_pair, case_entity_from, associate, body_of_add_entity, add_entity_to_case,
  dissociate, body_of_remove_entity, remove_entity_from_case, list_case_entities,
}

-- the pair that is associated
abbrev pairs : (case_id entity_id : ℕ) → Db → List CaseEntity
pairs case_id entity_id db = get_all 0 100 (is_pair case_id entity_id) db.case_entities

abbrev added : (case_id entity_id user_id : ℕ) → (notes : Option String) → Db → Db
added case_id entity_id user_id notes db = record db {
  case_entities =
      db.case_entities ++ case_entity_from db.next_id case_id entity_id user_id notes ∷ [];
  next_id = db.next_id + 1;
}

-- What an addition that returned says of the tables before it, and its effect.
record IsAddition (case_id entity_id user_id : ℕ) (notes : Option String) (db : Db) : Type 0 where
  the_case : Case
  the_entity : Entity
  case_found : get_by_id (λ c. c.id) case_id db.cases ≡ some the_case
  entity_found : get_by_id (λ e. e.id) entity_id db.entities ≡ some the_entity
  absent : is_nil (pairs case_id entity_id db) ≡ true

associate-inv :
    (case_id entity_id user_id : ℕ) (notes : Option String) (db : Db) (r : CaseEntityResponse)
    (c : Option Case) (e : Option Entity)
    → get_by_id (λ x. x.id) case_id db.cases ≡ c
    → get_by_id (λ x. x.id) entity_id db.entities ≡ e
    → (associate case_id entity_id user_id notes c e db).0 ≡ ok r
    → IsAddition case_id entity_id user_id notes db
unfolding associate
associate-inv case_id entity_id user_id notes db r none e found-c found-e h = absurd (cc)
associate-inv case_id entity_id user_id notes db r (some c) none found-c found-e h = absurd (cc)
associate-inv case_id entity_id user_id notes db r (some c) (some e) found-c found-e h =
    elim (Bool-cases (is_nil (pairs case_id entity_id db))) [
      | inl absent ↦ record {
        the_case = c;
        the_entity = e;
        case_found = found-c;
        entity_found = found-e;
        absent = absent;
      }
      | inr present ↦
          let k : http_exception 409 "Entity is already associated with this case" ≡ ok r =
            rw present at h in
          absurd (cc)
    ]

module _ (case_id entity_id user_id : ℕ) (notes : Option String) (db : Db) where
  addition-effect :
      IsAddition case_id entity_id user_id notes db
      → (body_of_add_entity case_id entity_id user_id notes db).1
        ≡ added case_id entity_id user_id notes db
  unfolding body_of_add_entity associate create_record
  addition-effect a = rw (a.case_found, a.entity_found) (rw a.absent refl)

  IsAddition-inv :
      (r : CaseEntityResponse)
      → (add_entity_to_case case_id entity_id user_id notes db).0 ≡ ok r
      → IsAddition case_id entity_id user_id notes db
        × ((add_entity_to_case case_id entity_id user_id notes db).1
            ≡ added case_id entity_id user_id notes db)
  unfolding add_entity_to_case body_of_add_entity
  IsAddition-inv r h =
      let same = with_session-ok (body_of_add_entity case_id entity_id user_id notes) db r h in
      let a =
        associate-inv case_id entity_id user_id notes db r _ _ refl refl
          (ap (λ p. p.0) (sym same) ∙ h) in
      (a, ap (λ p. p.1) same ∙ addition-effect a)

  abbrev new : CaseEntity
  new = case_entity_from db.next_id case_id entity_id user_id notes

  self_pair : is_pair case_id entity_id new ≡ true
  self_pair = rw (==_refl case_id, ==_refl entity_id) refl

  -- The pair is in the table after the addition, once.
  pairs-added :
      is_nil (pairs case_id entity_id db) ≡ true
      → pairs case_id entity_id (added case_id entity_id user_id notes db) ≡ new ∷ []
  unfolding get_all
  pairs-added absent =
      let none' = first-nil db.case_entities (is_pair case_id entity_id) absent in
      let e : keep (is_pair case_id entity_id) (db.case_entities ++ new ∷ []) ≡ new ∷ [] =
        keep-append (is_pair case_id entity_id) db.case_entities (new ∷ [])
        ∙ (rw (none', self_pair) refl) in
      ap (take 100) e

  associate-again :
      (c : Case) (e : Entity)
      → is_nil (pairs case_id entity_id db) ≡ true
      → (associate case_id entity_id user_id notes
          (some c)
          (some e)
          (added case_id entity_id user_id notes db)).0
        ≡ http_exception 409 "Entity is already associated with this case"
  unfolding associate
  associate-again c e absent = rw (pairs-added absent) refl

  repeated :
      IsAddition case_id entity_id user_id notes db
      → (body_of_add_entity case_id entity_id user_id notes
          (added case_id entity_id user_id notes db)).0
        ≡ http_exception 409 "Entity is already associated with this case"
  unfolding body_of_add_entity
  repeated a = rw (a.case_found, a.entity_found) (associate-again a.the_case a.the_entity a.absent)

  dissociated :
      All (λ ce. (ce.id == db.next_id) ≡ false) db.case_entities
      → (delete_record (λ ce. ce.id) db.next_id (db.case_entities ++ new ∷ [])).1 ≡ db.case_entities
  unfolding delete_record
  dissociated fresh =
      keep-append (λ ce. not (ce.id == db.next_id)) db.case_entities (new ∷ [])
      ∙ rw (==_refl db.next_id) (
          ap (λ xs. xs ++ [])
            (keep-All (λ ce. not (ce.id == db.next_id)) db.case_entities
              (All-map db.case_entities (λ ce h. ap not h) fresh))
          ∙ append-nil db.case_entities)

  -- An entity that has just been added to a case is refused with status 409 when it is added again.
  pub add_entity_to_case_twice :
      (r : CaseEntityResponse)
      → (add_entity_to_case case_id entity_id user_id notes db).0 ≡ ok r
      → (add_entity_to_case case_id entity_id user_id notes
          (add_entity_to_case case_id entity_id user_id notes db).1).0
        ≡ http_exception 409 "Entity is already associated with this case"
  unfolding add_entity_to_case with_session
  add_entity_to_case_twice r h = let (a, effect) = IsAddition-inv r h in rw effect (repeated a)

  -- An entity that has just been added to a case can be removed again, and that restores the table
  -- of the associations, provided that the identifier of the new row was not in use.
  pub remove-add_entity :
      (r : CaseEntityResponse)
      → All (λ ce. (ce.id == db.next_id) ≡ false) db.case_entities
      → (add_entity_to_case case_id entity_id user_id notes db).0 ≡ ok r
      → let removed =
          remove_entity_from_case case_id entity_id
            (add_entity_to_case case_id entity_id user_id notes db).1 in
        (removed.0 ≡ ok tt) × (removed.1.case_entities ≡ db.case_entities)
  unfolding remove_entity_from_case with_session body_of_remove_entity dissociate
  remove-add_entity r fresh h =
      let (a, effect) = IsAddition-inv r h in
      rw effect (rw (pairs-added a.absent) (refl, dissociated fresh))

case_gone :
    (case_id : ℕ) (cases : List Case)
    → get_by_id (λ c. c.id) case_id (delete_record (λ c. c.id) case_id cases).1 ≡ none
unfolding get_by_id delete_record
case_gone case_id [] = refl
case_gone case_id (c ∷ cs) = elim (Bool-cases (c.id == case_id)) [
  | inl here ↦ rw here (case_gone case_id cs)
  | inr other ↦ rw other (rw other (case_gone case_id cs))
]

links_gone :
    (case_id : ℕ) (ces : List CaseEntity)
    → keep (λ ce. ce.case_id == case_id) (keep (λ ce. not (ce.case_id == case_id)) ces) ≡ []
links_gone case_id [] = refl
links_gone case_id (ce ∷ ces) = elim (Bool-cases (ce.case_id == case_id)) [
  | inl here ↦ rw here (links_gone case_id ces)
  | inr other ↦ rw other (rw other (links_gone case_id ces))
]

module _ (case_id : ℕ) (db : Db) where
  abbrev deleted : Db
  deleted = record db {
    cases = (delete_record (λ c. c.id) case_id db.cases).1;
    case_entities = keep (λ ce. not (ce.case_id == case_id)) db.case_entities;
  }

  deletion-effect :
      (b : Bool)
      → b ≡ (delete_record (λ c. c.id) case_id db.cases).0
      → (body_of_delete_case case_id db).1 ≡ deleted
  unfolding body_of_delete_case
  deletion-effect true h = rw (sym h) refl
  deletion-effect false h = rw (sym h) refl

  gone : (get_case case_id deleted).0 ≡ http_exception 404 "Case not found"
  unfolding get_case found_or_404
  gone = rw (case_gone case_id db.cases) refl

  unlisted : (list_case_entities case_id deleted).0 ≡ http_exception 404 "Case not found"
  unfolding list_case_entities found_or_404
  unlisted = rw (case_gone case_id db.cases) refl

  -- After a case was deleted, asking for it or for its entities is answered with status 404, and no
  -- association of the case is left.
  pub get_case-delete_case :
      (delete_case case_id db).0 ≡ ok tt
      → let after = (delete_case case_id db).1 in
        ((get_case case_id after).0 ≡ http_exception 404 "Case not found")
        × ((list_case_entities case_id after).0 ≡ http_exception 404 "Case not found")
        × (keep (λ ce. ce.case_id == case_id) after.case_entities ≡ [])
  unfolding delete_case
  get_case-delete_case h =
      let same = with_session-ok (body_of_delete_case case_id) db tt h in
      let effect = ap (λ p. p.1) same ∙ deletion-effect _ refl in
      rw effect (gone, unlisted, links_gone case_id db.case_entities)
