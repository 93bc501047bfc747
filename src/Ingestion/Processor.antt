-- ===== src/Ingestion/Processor.antt =====
-- backend/ingestion/queue/processor.py, `process_records`: the batch, with its counters.
pub mod Accounting
pub mod Acceptance
use osint_platform_core.Base.{
  ℕ, ◌+◌, String, Bool, true, false, Option, none, some, List, [], ◌∷◌, ◌++◌, length, take,
  if◌then◌else◌,
}
use osint_platform_core.Base.Http.{Outcome, ok, http_exception, unhandled}
use osint_platform_core.Ingestion.Records.{
  Dict, NormalizedRecord, Tools, normalize_record, extract_entities,
}
use osint_platform_core.Ingestion.Store.{
  Db, Postgres, Transaction, begun, inactive, aborted, store_entities,
}
use osint_platform_core.Ingestion.Store.Relationships.{extract_relationships, store_relationships}

-- `duration_ms` is left out: it is measured and only reported.
pub record ProcessingResult : Type 0 where
  pub total : ℕ
  pub successful : ℕ
  pub failed : ℕ
  pub entities_created : ℕ
  pub relationships_created : ℕ
  pub errors : List String

abbrev pub fresh_result : ℕ → ProcessingResult
fresh_result total = record {
  total = total;
  successful = 0;
  failed = 0;
  entities_created = 0;
  relationships_created = 0;
  errors = [];
}

-- The `except Exception` of the loop.
abbrev failed_with : String → ProcessingResult → ProcessingResult
failed_with error r = record r { failed = r.failed + 1; errors = r.errors ++ error ∷ [] }

abbrev add_relationships :
    Postgres → List NormalizedRecord → ProcessingResult × Db → ProcessingResult × Db
add_relationships pg entities (r, db) =
    let (rel_ids, db') = store_relationships pg (extract_relationships entities) db in
    (
      record r {
        relationships_created = r.relationships_created + length rel_ids;
        successful = r.successful + 1;
      },
      db',
    )

-- from the outcome of `store_entities`
after_store :
    Postgres
    → List NormalizedRecord
    → Outcome (List ℕ)
    → ProcessingResult × Db
    → ProcessingResult × Db
after_store pg entities (ok ids) (r, db) =
    add_relationships pg entities
      (record r { entities_created = r.entities_created + length ids }, db)
after_store pg entities (http_exception code detail) (r, db) = (failed_with detail r, db)
after_store pg entities (unhandled error) (r, db) = (failed_with error r, db)

store_extracted :
    Postgres
    → (source user : Option ℕ) → List NormalizedRecord
    → ProcessingResult × Db
    → ProcessingResult × Db
unfolding after_store
store_extracted pg source user [] (r, db) = (record r { failed = r.failed + 1 }, db)
store_extracted pg source user (e ∷ es) (r, db) =
    let (outcome, db') = store_entities pg (e ∷ es) source user db in
    after_store pg (e ∷ es) outcome (r, db')

after_normalize :
    Postgres
    → (source user : Option ℕ) → Outcome NormalizedRecord
    → ProcessingResult × Db
    → ProcessingResult × Db
unfolding store_extracted
after_normalize pg source user (ok normalized) s =
    store_extracted pg source user (extract_entities normalized) s
after_normalize pg source user (http_exception code detail) (r, db) = (failed_with detail r, db)
after_normalize pg source user (unhandled error) (r, db) = (failed_with error r, db)

-- The commit, which flushes first, and the rollback if it raises. PostgreSQL answers the commit of an
-- aborted transaction with a rollback, and no error.
pub finish :
    Transaction
    → (refused commit_error : Option String) → (before : Db) → ProcessingResult × Db
    → ProcessingResult × Db
finish begun none none before s = s
finish begun none (some error) before (r, after) =
    (record r { errors = r.errors ++ error ∷ [] }, before)
finish begun (some error) commit_error before (r, after) =
    (record r { errors = r.errors ++ error ∷ [] }, before)
finish inactive refused commit_error before (r, after) =
    (record r { errors = r.errors ++ "PendingRollbackError" ∷ [] }, before)
finish aborted refused none before (r, after) = (r, before)
finish aborted refused (some error) before (r, after) =
    (record r { errors = r.errors ++ error ∷ [] }, before)

module _ (tools : Tools) (pg : Postgres) (source user : Option ℕ) where
  process_record : Dict → ProcessingResult × Db → ProcessingResult × Db
  unfolding after_normalize
  process_record raw s = after_normalize pg source user (normalize_record tools raw) s

  process_loop : List Dict → ProcessingResult × Db → ProcessingResult × Db
  process_loop [] s = s
  process_loop (raw ∷ rest) s = process_loop rest (process_record raw s)

  -- `commit_error` is what else `session.commit()` raises, if it does.
  unfoldable pub process_batch :
      List Dict → (commit_error : Option String) → Db → ProcessingResult × Db
  unfolding process_loop process_record finish
  process_batch records commit_error db =
      let (r, db') = process_loop records (fresh_result (length records), db) in
      finish db'.transaction (pg.refuses db') commit_error db (r, db')

-- the list of errors that is reported is capped
unfoldable pub to_dict : ProcessingResult → ProcessingResult
to_dict r = record r { errors = take 50 r.errors }

unfoldable pub process_records :
    Tools
    → Postgres
    → (source user : Option ℕ) → List Dict
    → (commit_error : Option String) → Db
    → ProcessingResult × Db
unfolding process_batch to_dict
process_records tools pg source user records commit_error db =
    let (r, db') = process_batch tools pg source user records commit_error db in (to_dict r, db')
