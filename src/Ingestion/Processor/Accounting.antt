-- ===== src/Ingestion/Processor/Accounting.antt =====
-- backend/ingestion/queue/processor.py: the counters that `process_records` reports.
use osint_platform_core.Base.{
  ℕ, suc, ◌+◌, ◌≤◌, String, Bool, true, false, Option, none, some, List, [], ◌∷◌, ◌≡◌, refl, sym,
  ◌∙◌, arith, length, length-take, str_in, if◌then◌else◌,
}
use osint_platform_core.Base.Text.{is_empty}
use osint_platform_core.Base.Http.{Outcome, ok, http_exception, unhandled, continue, pure}
use osint_platform_core.Ingestion.Records.{
  Dict, NormalizedRecord, Tools, normalize_record, extract_entities, valid_entity_types,
}
use osint_platform_core.Ingestion.Store.{
  Db, Postgres, Transaction, begun, inactive, aborted, store_entity, store_entities,
}
use osint_platform_core.Ingestion.Store.Relationships.{extract_relationships, store_relationships}
use osint_platform_core.Ingestion.Processor.{
  ProcessingResult, fresh_result, after_store, store_extracted, after_normalize, process_record,
  process_loop, finish, process_batch, to_dict, process_records,
}

-- The counters after `n` records.
record IsTally (total n : ℕ) (r : ProcessingResult) : Type 0 where
  of_total : r.total ≡ total
  counted : r.successful + r.failed ≡ n
  created : r.entities_created ≡ r.successful
  unrelated : r.relationships_created ≡ 0

failure-IsTally :
    (total n : ℕ) (r : ProcessingResult) (errors : List String)
    → IsTally total n r
    → IsTally total (n + 1) (record r { failed = r.failed + 1; errors = errors })
failure-IsTally total n r errors t = record {
  of_total = t.of_total;
  counted = omega (arith, t.counted);
  created = t.created;
  unrelated = t.unrelated;
}

-- A single entity that was stored counts as one, and has no relationship.
stored-IsTally :
    (pg : Postgres) (total n : ℕ) (norm : NormalizedRecord) (stored : Outcome ℕ × Db)
    (r : ProcessingResult)
    → IsTally total n r
    → IsTally total
        (n + 1)
        (after_store pg
          (norm ∷ [])
          (continue stored.0 (λ id. pure (id ∷ [])) stored.1).0
          (r, (continue stored.0 (λ id. pure (id ∷ [])) stored.1).1)).0
unfolding after_store extract_relationships store_relationships
stored-IsTally pg total n norm (ok id, db) r t = record {
  of_total = t.of_total;
  counted = omega (arith, t.counted);
  created = omega (arith, t.created);
  unrelated = omega (arith, t.unrelated);
}
stored-IsTally pg total n norm (http_exception code detail, db) r t = failure-IsTally total n r _ t
stored-IsTally pg total n norm (unhandled error, db) r t = failure-IsTally total n r _ t

extracted-IsTally :
    (pg : Postgres) (source user : Option ℕ) (norm : NormalizedRecord) (accepted : Bool)
    (total n : ℕ) (r : ProcessingResult) (db : Db)
    → IsTally total n r
    → IsTally total
        (n + 1)
        (store_extracted pg source user (if accepted then norm ∷ [] else []) (r, db)).0
unfolding store_extracted store_entities
extracted-IsTally pg source user norm true total n r db t =
    stored-IsTally pg total n norm (store_entity pg source user norm db) r t
extracted-IsTally pg source user norm false total n r db t = failure-IsTally total n r _ t

-- whether `extract_entities` accepts a record
abbrev pub is_storable : NormalizedRecord → Bool
is_storable n = if is_empty n.name then false else str_in n.entity_type valid_entity_types

pub extract_entities_lem :
    (n : NormalizedRecord) → extract_entities n ≡ (if is_storable n then n ∷ [] else [])
unfolding extract_entities
extract_entities_lem n = ground arith

normalized-IsTally :
    (pg : Postgres) (source user : Option ℕ) (o : Outcome NormalizedRecord) (total n : ℕ)
    (r : ProcessingResult) (db : Db)
    → IsTally total n r
    → IsTally total (n + 1) (after_normalize pg source user o (r, db)).0
unfolding after_normalize
normalized-IsTally pg source user (ok norm) total n r db t =
    rw (extract_entities_lem norm)
      (extracted-IsTally pg source user norm (is_storable norm) total n r db t)
normalized-IsTally pg source user (http_exception code detail) total n r db t =
    failure-IsTally total n r _ t
normalized-IsTally pg source user (unhandled error) total n r db t = failure-IsTally total n r _ t

-- A counter is what it was before the commit.
pub finish-same :
    (count : ProcessingResult → ℕ) (t : Transaction) (refused commit_error : Option String)
    (before : Db) (s : ProcessingResult × Db)
    → ((r : ProcessingResult) (errors : List String)
        → count (record r { errors = errors }) ≡ count r)
    → count (finish t refused commit_error before s).0 ≡ count s.0
unfolding finish
finish-same count begun none none before s h = refl
finish-same count begun none (some error) before (r, after) h = h r _
finish-same count begun (some error) commit_error before (r, after) h = h r _
finish-same count inactive refused commit_error before (r, after) h = h r _
finish-same count aborted refused none before (r, after) h = refl
finish-same count aborted refused (some error) before (r, after) h = h r _

module _ (tools : Tools) (pg : Postgres) (source user : Option ℕ) where
  loop-IsTally :
      (records : List Dict) (total n : ℕ) (s : ProcessingResult × Db)
      → IsTally total n s.0
      → IsTally total (n + length records) (process_loop tools pg source user records s).0
  unfolding process_loop process_record
  loop-IsTally [] total n s t = let e : n + 0 ≡ n = omega arith in rw e t
  loop-IsTally (raw ∷ rest) total n s t =
      let e : n + suc (length rest) ≡ (n + 1) + length rest = omega arith in
      rw e (
        loop-IsTally rest total (n + 1) _
          (normalized-IsTally pg source user (normalize_record tools raw) total n s.0 s.1 t))

  fresh-IsTally : (total : ℕ) → IsTally total 0 (fresh_result total)
  fresh-IsTally total = record {
    of_total = refl;
    counted = omega arith;
    created = refl;
    unrelated = refl;
  }

  whole-IsTally :
      (records : List Dict) (db : Db)
      → IsTally
          (length records)
          (length records)
          (process_loop tools pg source user records (fresh_result (length records), db)).0
  whole-IsTally records db =
      let e : 0 + length records ≡ length records = omega arith in
      rw e at (
        loop-IsTally records (length records) 0 (fresh_result (length records), db)
          (fresh-IsTally (length records)))

  -- The commit adds an error at most.
  finish-IsTally :
      (total n : ℕ) (t : Transaction) (refused commit_error : Option String) (before : Db)
      (s : ProcessingResult × Db)
      → IsTally total n s.0
      → IsTally total n (finish t refused commit_error before s).0
  unfolding finish
  finish-IsTally total n t refused commit_error before s h = record {
    of_total =
        finish-same (λ r. r.total) t refused commit_error before s (λ r e. refl) ∙ h.of_total;
    counted =
        finish-same (λ r. r.successful + r.failed) t refused commit_error before s (λ r e. refl)
        ∙ h.counted;
    created =
        finish-same (λ r. r.entities_created) t refused commit_error before s (λ r e. refl)
        ∙ h.created
        ∙ sym (finish-same (λ r. r.successful) t refused commit_error before s (λ r e. refl));
    unrelated =
        finish-same (λ r. r.relationships_created) t refused commit_error before s (λ r e. refl)
        ∙ h.unrelated;
  }

  batch-IsTally :
      (records : List Dict) (commit_error : Option String) (db : Db)
      → IsTally
          (length records)
          (length records)
          (process_batch tools pg source user records commit_error db).0
  unfolding process_batch
  batch-IsTally records commit_error db = finish-IsTally _ _ _ _ _ _ _ (whole-IsTally records db)

  -- Whatever the records and the database, and whether or not the commit fails: `total` is the
  -- number of records, each record is counted as successful or as failed, `entities_created` counts
  -- the successful records, `relationships_created` is 0, and 50 errors are reported at most.
  pub process_records-counts :
      (records : List Dict) (commit_error : Option String) (db : Db)
      → let r = (process_records tools pg source user records commit_error db).0 in
        (r.total ≡ length records)
        × (r.successful + r.failed ≡ length records)
        × (r.entities_created ≡ r.successful)
        × (r.relationships_created ≡ 0)
        × (length r.errors ≤ 50)
  unfolding process_records to_dict
  process_records-counts records commit_error db =
      let t = batch-IsTally records commit_error db in
      let errors = (process_batch tools pg source user records commit_error db).0.errors in
      let capped = length-take 50 errors in
      (t.of_total, t.counted, t.created, t.unrelated, omega arith)
