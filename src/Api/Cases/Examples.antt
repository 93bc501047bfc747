-- ===== src/Api/Cases/Examples.antt =====
-- The theorems about the cases router at concrete inputs.
use osint_platform_core.Base.{true, none, some, [], ◌∷◌, ◌≡◌, refl}
use osint_platform_core.Base.Http.{ok}
use osint_platform_core.Storage.Queries.{Page, get_by_id, get_all, paginate, count_records}
use osint_platform_core.Ingestion.Store.{Entity}
use osint_platform_core.Api.Cases.Rows.{Case, Db, CaseCreate, CaseUpdate}
use osint_platform_core.Api.Cases.{create_case, update_case, delete_case}
use osint_platform_core.Api.Cases.Entities.{
  CaseEntityResponse, add_entity_to_case, remove_entity_from_case, list_case_entities,
}
use osint_platform_core.Api.Cases.Soundness.{IsSound}
use osint_platform_core.Api.Cases.Soundness.Handlers.{handlers-IsSound}
use osint_platform_core.Api.Cases.Listing.{page_rows}

abbrev acme : Entity
acme = record {
  id = 7;
  entity_type = "organization";
  name = "ACME";
  aliases = [];
  attributes = [];
  confidence_score = 500000;
  is_canonical = true;
  canonical_id = none;
  created_by = none;
}

abbrev fraud : Case
fraud = record {
  id = 3;
  name = "Fraud";
  description = none;
  status = "open";
  priority = "high";
  tags = [];
  created_by = some 1;
  assigned_to = none;
}

abbrev abandoned : Case
abandoned = record fraud { id = 4; created_by = none }

abbrev db : Db
db = record {
  users = 1 ∷ [];
  entities = acme ∷ [];
  cases = fraud ∷ abandoned ∷ [];
  case_entities = [];
  next_id = 10;
}

db-IsSound : IsSound db
db-IsSound = record { valid = ((refl, refl), ((refl, refl), tt)); unique = tt; rooted = tt }

abbrev body : CaseCreate
body = record {
  name = "Theft";
  description = none;
  status = "open";
  priority = "low";
  tags = [];
  assigned_to = some 1;
}

abbrev changes : CaseUpdate
changes = record {
  name = none;
  description = none;
  status = some "closed";
  priority = none;
  tags = none;
  assigned_to = none;
}

handlers-IsSound_example :
    IsSound (create_case body 1 db).1
    × IsSound (update_case 3 changes db).1
    × IsSound (delete_case 3 db).1
    × IsSound (add_entity_to_case 3 7 1 none db).1
    × IsSound (remove_entity_from_case 3 7 db).1
handlers-IsSound_example = handlers-IsSound 3 7 1 none body changes db db-IsSound

abbrev answer : CaseEntityResponse
answer = record {
  id = 10;
  case_id = 3;
  entity_id = 7;
  added_by = 1;
  notes = none;
  entity_name = some "ACME";
  entity_type = some "organization";
}

addition : (add_entity_to_case 3 7 1 none db).0 ≡ ok answer
unfolding add_entity_to_case get_by_id get_all
addition = refl

deletion : (delete_case 3 db).0 ≡ ok tt
unfolding delete_case
deletion = refl

abbrev linked : Db
linked = record db {
  case_entities =
      record { id = 9; case_id = 3; entity_id = 7; added_by = some 1; notes = none } ∷ [];
}

listing : (list_case_entities 3 linked).0 ≡ ok (record answer { id = 9 } ∷ [])
unfolding list_case_entities
listing = refl

abbrev first_page : Page Case
first_page = record {
  items = fraud ∷ abandoned ∷ [];
  total = 2;
  page = 1;
  page_size = 20;
  pages = 1;
}

paged : page_rows 1 20 none none db ≡ ok first_page
unfolding paginate get_all count_records
paged = refl
