-- ===== src/Api/Cases.antt =====
-- backend/api/v1/routes/cases.py: investigation cases and the entities associated with them.
pub mod Rows
pub mod Entities
pub mod Soundness
pub mod Membership
pub mod Listing
mod Examples
use osint_platform_core.Base.{
  ℕ, ◌+◌, String, Bool, true, false, Option, none, some, List, [], ◌∷◌, ◌==◌, str_eq, str_in, any,
  not, keep, nat_in, if◌then◌else◌, ◌&&◌, ◌||◌,
}
use osint_platform_core.Base.Http.{
  Outcome, ok, http_exception, unhandled, Handler, pure, fail, crash, gets, ◌>>=◌, with_session,
  traverse,
}
use osint_platform_core.Storage.Queries.{
  Page, get_all, create_record, get_by_id, update_record, delete_record, paginate,
}
use osint_platform_core.Api.Cases.Rows.{
  Case, Db, CaseCreate, CaseUpdate, CaseResponse, from_orm_model,
}

abbrev pub valid_statuses : List String
valid_statuses = "open" ∷ "closed" ∷ "archived" ∷ []

abbrev pub valid_priorities : List String
valid_priorities = "low" ∷ "medium" ∷ "high" ∷ "critical" ∷ []

abbrev respond : Case → Handler Db CaseResponse
respond c db = (from_orm_model c, db)

-- a foreign key that may be null
abbrev pub is_user : Option ℕ → List ℕ → Bool
is_user none users = true
is_user (some user_id) users = nat_in user_id users

abbrev case_from : CaseCreate → (id user_id : ℕ) → Case
case_from body id user_id = record {
  id = id;
  name = body.name;
  description = body.description;
  status = body.status;
  priority = body.priority;
  tags = body.tags;
  created_by = some user_id;
  assigned_to = body.assigned_to;
}

pub body_of_create_case : CaseCreate → (user_id : ℕ) → Handler Db CaseResponse
unfolding from_orm_model create_record
body_of_create_case body user_id db =
    if not (str_in body.status valid_statuses)
    then fail 422 "status must be one of {VALID_STATUSES}" db
    else if not (str_in body.priority valid_priorities)
    then fail 422 "priority must be one of {VALID_PRIORITIES}" db
    else if not (is_user body.assigned_to db.users)
    then crash "IntegrityError" db
    else let c = case_from body db.next_id user_id in
      respond c (record db { cases = create_record c db.cases; next_id = db.next_id + 1 })

-- `user_id` is that of the current user, which is in the table.
unfoldable pub create_case : CaseCreate → (user_id : ℕ) → Handler Db CaseResponse
unfolding with_session body_of_create_case
create_case body user_id = with_session (body_of_create_case body user_id)

-- `if value: filters[column] = value`
abbrev pub is_match : Option String → String → Bool
is_match none column = true
is_match (some value) column = if str_eq value "" then true else str_eq column value

abbrev page_of : Outcome (List CaseResponse) → Page Case → Outcome (Page CaseResponse)
page_of (ok items) p = ok (record {
  items = items;
  total = p.total;
  page = p.page;
  page_size = p.page_size;
  pages = p.pages;
})
page_of (http_exception code detail) p = http_exception code detail
page_of (unhandled error) p = unhandled error

list_response : Outcome (Page Case) → Outcome (Page CaseResponse)
unfolding from_orm_model traverse
list_response (ok p) = page_of (traverse from_orm_model p.items) p
list_response (http_exception code detail) = http_exception code detail
list_response (unhandled error) = unhandled error

unfoldable pub list_cases :
    (page page_size : ℕ) → (status priority : Option String) → Handler Db (Page CaseResponse)
unfolding paginate list_response
list_cases page page_size status priority db = (
  list_response (
      paginate page page_size (λ c. is_match status c.status && is_match priority c.priority)
        db.cases),
  db,
)

unfoldable pub found_or_404 : {A : Type 0} → String → Option A → Handler Db A
found_or_404 detail none = fail 404 detail
found_or_404 detail (some x) = pure x

unfoldable pub get_case : (case_id : ℕ) → Handler Db CaseResponse
unfolding get_by_id from_orm_model found_or_404
get_case case_id = do
  found ← gets (λ db. get_by_id (λ c. c.id) case_id db.cases)
  c ← found_or_404 "Case not found" found
  respond c

abbrev pub or_old : {A : Type 0} → Option A → A → A
or_old none old = old
or_old (some new) old = new

abbrev or_null : {A : Type 0} → Option A → Option A → Option A
or_null none old = old
or_null (some new) old = some new

-- `model_dump(exclude_none=True)`, written into the row
abbrev pub apply_update : CaseUpdate → Case → Case
apply_update body c = record c {
  name = or_old body.name c.name;
  description = or_null body.description c.description;
  status = or_old body.status c.status;
  priority = or_old body.priority c.priority;
  tags = or_old body.tags c.tags;
  assigned_to = or_null body.assigned_to c.assigned_to;
}

abbrev is_none : {A : Type 0} → Option A → Bool
is_none none = true
is_none (some x) = false

abbrev pub is_blank : CaseUpdate → Bool
is_blank body =
    is_none body.name
    && is_none body.description
    && is_none body.status
    && is_none body.priority
    && is_none body.tags
    && is_none body.assigned_to

abbrev pub allows : Option String → List String → Bool
allows none values = true
allows (some s) values = str_in s values

-- the row that an update wrote; the foreign key is only checked if there is one
pub written : CaseUpdate → Option Case × List Case → Handler Db CaseResponse
unfolding from_orm_model
written body (none, rows) db = fail 404 "Case not found" db
written body (some c, rows) db =
    if is_user body.assigned_to db.users
    then respond c (record db { cases = rows })
    else crash "IntegrityError" db

pub body_of_update_case : (case_id : ℕ) → CaseUpdate → Handler Db CaseResponse
unfolding written update_record get_case
body_of_update_case case_id body db =
    if not (allows body.status valid_statuses)
    then fail 422 "status must be one of {VALID_STATUSES}" db
    else if not (allows body.priority valid_priorities)
    then fail 422 "priority must be one of {VALID_PRIORITIES}" db
    else if is_blank body
    then get_case case_id db
    else written body (update_record (λ c. c.id) case_id (apply_update body) db.cases) db

unfoldable pub update_case : (case_id : ℕ) → CaseUpdate → Handler Db CaseResponse
unfolding with_session body_of_update_case
update_case case_id body = with_session (body_of_update_case case_id body)

-- the foreign key of `case_entities` cascades
pub body_of_delete_case : (case_id : ℕ) → Handler Db (Unit {0})
unfolding delete_record
body_of_delete_case case_id db =
    let (deleted, rows) = delete_record (λ c. c.id) case_id db.cases in
    let db' = record db {
      cases = rows;
      case_entities = keep (λ ce. not (ce.case_id == case_id)) db.case_entities;
    } in
    if deleted then (ok tt, db') else fail 404 "Case not found" db'

unfoldable pub delete_case : (case_id : ℕ) → Handler Db (Unit {0})
unfolding with_session body_of_delete_case
delete_case case_id = with_session (body_of_delete_case case_id)
