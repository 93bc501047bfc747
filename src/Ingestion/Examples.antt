-- ===== src/Ingestion/Examples.antt =====
-- The theorems about backend/ingestion/queue/processor.py at concrete inputs.
use osint_platform_core.Base.{
  ℕ, ◌+◌, ◌≤◌, Bool, true, false, Option, none, some, List, [], ◌∷◌, ◌==◌, any, ◌≡◌, refl, ◌⊎◌,
  length, if◌then◌else◌,
}
use osint_platform_core.Base.Json.{text}
use osint_platform_core.Base.Http.{ok}
use osint_platform_core.Ingestion.Records.{Dict, NormalizedRecord, Tools}
use osint_platform_core.Ingestion.Store.{Entity, Db, Postgres, begun, store_entities}
use osint_platform_core.Ingestion.Store.Canonical.{
  IsConsistent, IsStored, Refuses, Runs, store_entities-Runs,
}
use osint_platform_core.Ingestion.Processor.{process_records}
use osint_platform_core.Ingestion.Processor.Accounting.{process_records-counts}
use osint_platform_core.Ingestion.Processor.Acceptance.{
  accepted, process_records-accepted, process_records-rollback,
}

abbrev is_user_13 : Option ℕ → Bool
is_user_13 none = false
is_user_13 (some id) = id == 13

abbrev acme : Entity
acme = record {
  id = 1;
  entity_type = "organization";
  name = "ACME";
  aliases = "Acme Inc" ∷ [];
  attributes = ("country", text "US") ∷ [];
  confidence_score = 500000;
  is_canonical = true;
  canonical_id = none;
  created_by = none;
}

abbrev db : Db
db = record {
  entities = acme ∷ [];
  entity_sources = [];
  relationships = [];
  next_id = 2;
  transaction = begun;
}

-- There is no user 13, whose rows PostgreSQL refuses.
abbrev postgres : Postgres
postgres = record {
  refuses = λ x.
      if any (λ (e : Entity). is_user_13 e.created_by) x.entities
      then some "ForeignKeyViolationError"
      else none;
  refuses_query = λ t n. none;
}

abbrev norm : NormalizedRecord
norm = record {
  entity_type = "organization";
  name = "ACME";
  aliases = "ACME Corp" ∷ [];
  attributes = ("country", text "FR") ∷ ("city", text "Paris") ∷ [];
  source_url = none;
  confidence = 900000;
}

db-IsConsistent : IsConsistent db
db-IsConsistent = record { canonical = (tt, tt); linked = tt }

store_entities-Runs_example :
    Runs postgres
      (Refuses postgres (norm ∷ norm ∷ []) db)
      (store_entities postgres (norm ∷ norm ∷ []) (some 9) none)
      db
      (IsStored (norm ∷ norm ∷ []) db)
store_entities-Runs_example =
    store_entities-Runs postgres (norm ∷ norm ∷ []) (some 9) none db refl db-IsConsistent

abbrev tools : Tools
tools = record {
  classify_entity = λ raw. "organization";
  clean_entity_data = λ entity_type raw. ok raw;
  repr = λ v. "[]";
  to_float = λ v. ok 1000000;
}

abbrev records : List Dict
records = (("name", text "ACME") ∷ []) ∷ [] ∷ []

process_records-counts_example :
    let r = (process_records tools postgres none none records (some "connection lost") db).0 in
    (r.total ≡ length records)
    × (r.successful + r.failed ≡ length records)
    × (r.entities_created ≡ r.successful)
    × (r.relationships_created ≡ 0)
    × (length r.errors ≤ 50)
process_records-counts_example =
    process_records-counts tools postgres none none records (some "connection lost") db

process_records-accepted_example :
    let (r, after) = process_records tools postgres none none records none db in
    (Refuses postgres (accepted tools records) db × (after ≡ db))
    ⊎ (IsStored (accepted tools records) db after
        × (r.successful ≡ length (accepted tools records)))
process_records-accepted_example =
    process_records-accepted tools postgres none none records db refl db-IsConsistent

process_records-rollback_example :
    let (r, after) = process_records tools postgres none none records (some "timeout") db in
    let committed = (process_records tools postgres none none records none db).0 in
    (after ≡ db)
    × (r.successful ≡ committed.successful)
    × (r.failed ≡ committed.failed)
    × (r.entities_created ≡ committed.entities_created)
process_records-rollback_example =
    process_records-rollback tools postgres none none records "timeout" db
