-- ===== src/Api/Cases/Rows.antt =====
-- The rows and the bodies of backend/api/v1/routes/cases.py: the tables are those of
-- backend/storage/database/postgres/models.py. Timestamps and the limits that pydantic sets on
-- lengths are left out.
use osint_platform_core.Base.{ℕ, String, Option, none, some, List}
use osint_platform_core.Base.Http.{Outcome, ok, unhandled}
use osint_platform_core.Ingestion.Store.{Entity}

pub record Case : Type 0 where
  pub id : ℕ
  pub name : String
  pub description : Option String
  pub status : String
  pub priority : String
  pub tags : List String
  pub created_by : Option ℕ
  pub assigned_to : Option ℕ

pub record CaseEntity : Type 0 where
  pub id : ℕ
  pub case_id : ℕ
  pub entity_id : ℕ
  pub added_by : Option ℕ
  pub notes : Option String

-- The tables; `users` holds the identifiers of the users. `next_id` is an identifier that no row
-- has: what `gen_random_uuid()` returns next.
pub record Db : Type 0 where
  pub users : List ℕ
  pub entities : List Entity
  pub cases : List Case
  pub case_entities : List CaseEntity
  pub next_id : ℕ

pub record CaseCreate : Type 0 where
  pub name : String
  pub description : Option String
  pub status : String
  pub priority : String
  pub tags : List String
  pub assigned_to : Option ℕ

pub record CaseUpdate : Type 0 where
  pub name : Option String
  pub description : Option String
  pub status : Option String
  pub priority : Option String
  pub tags : Option (List String)
  pub assigned_to : Option ℕ

pub record CaseResponse : Type 0 where
  pub id : ℕ
  pub name : String
  pub description : Option String
  pub status : String
  pub priority : String
  pub tags : List String
  pub created_by : ℕ
  pub assigned_to : Option ℕ

abbrev pub response_by : Case → (user_id : ℕ) → CaseResponse
response_by c user_id = record {
  id = c.id;
  name = c.name;
  description = c.description;
  status = c.status;
  priority = c.priority;
  tags = c.tags;
  created_by = user_id;
  assigned_to = c.assigned_to;
}

-- The response requires the creator, which the column may lack.
unfoldable pub from_orm_model : Case → Outcome CaseResponse
from_orm_model c = elim c.created_by [
  | none ↦ unhandled "ValidationError"
  | some user_id ↦ ok (response_by c user_id)
]
