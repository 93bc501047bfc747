-- ===== src/Ingestion/Processor/Acceptance.antt =====
-- backend/ingestion/queue/processor.py: the records that are stored, and a failing commit.
use mathlib.Core.List.{append-nil}
use osint_platform_core.Base.{
  ℕ, ◌+◌, String, Bool, true, false, Option, none, some, List, [], ◌∷◌, ◌++◌, ◌≡◌, refl, sym, arith,
  ap, length, length-append, inl, inr, ◌⊎◌, ◌∙◌, if◌then◌else◌,
}
use osint_platform_core.Base.Http.{Outcome, ok, http_exception, unhandled}
use osint_platform_core.Ingestion.Records.{Dict, NormalizedRecord, Tools, normalize_record}
use osint_platform_core.Ingestion.Store.{
  Db, Postgres, Transaction, begun, inactive, aborted, store_entities,
}
use osint_platform_core.Ingestion.Store.Relationships.{extract_relationships, store_relationships}
use osint_platform_core.Ingestion.Store.Canonical.{
  IsConsistent, IsStored, Refuses, is_begun, Option-cases, IsStored-append, nothing-IsStored,
  Refuses-before, Refuses-after, store_entities-Runs, store_entities-lost,
}
use osint_platform_core.Ingestion.Processor.{
  ProcessingResult, fresh_result, after_store, store_extracted, after_normalize, process_record,
  process_loop, finish, process_batch, to_dict, process_records,
}
use osint_platform_core.Ingestion.Processor.Accounting.{
  is_storable, extract_entities_lem, finish-same,
}

-- The specification of acceptance: the record normalises, to a name and a type that are stored.
abbrev accepted_of : Outcome NormalizedRecord → List NormalizedRecord
accepted_of (ok norm) = if is_storable norm then norm ∷ [] else []
accepted_of _ = []

unfoldable pub accepted : Tools → List Dict → List NormalizedRecord
accepted tools [] = []
accepted tools (raw ∷ rest) = accepted_of (normalize_record tools raw) ++ accepted tools rest

after-lost :
    (pg : Postgres) (norm : NormalizedRecord) (stored : Outcome (List ℕ) × Db)
    (r : ProcessingResult)
    → is_begun stored.1.transaction ≡ false
    → is_begun (after_store pg (norm ∷ []) stored.0 (r, stored.1)).1.transaction ≡ false
unfolding after_store extract_relationships store_relationships
after-lost pg norm (ok ids, db) r h = h
after-lost pg norm (http_exception code detail, db) r h = h
after-lost pg norm (unhandled error, db) r h = h

module _ (pg : Postgres) where
  -- The records were stored and counted, or PostgreSQL refused something and all is lost.
  abbrev IsDone : List NormalizedRecord → ProcessingResult × Db → ProcessingResult × Db → Type 0
  IsDone norms before after =
      (Refuses pg norms before.1 × (is_begun after.1.transaction ≡ false))
      ⊎ (IsStored norms before.1 after.1
          × (after.0.successful ≡ before.0.successful + length norms))

  nothing-IsDone :
      (r r' : ProcessingResult) (db : Db)
      → r'.successful ≡ r.successful
      → is_begun db.transaction ≡ true
      → IsConsistent db
      → IsDone [] (r, db) (r', db)
  nothing-IsDone r r' db same going c = inr (nothing-IsStored db going c, omega (arith, same))

  extracted-IsDone :
      (source user : Option ℕ) (norm : NormalizedRecord) (storable : Bool) (r : ProcessingResult)
      (db : Db)
      → is_begun db.transaction ≡ true
      → IsConsistent db
      → IsDone
          (if storable then norm ∷ [] else [])
          (r, db)
          (store_extracted pg source user (if storable then norm ∷ [] else []) (r, db))
  unfolding store_extracted after_store extract_relationships store_relationships
  extracted-IsDone source user norm true r db going c =
      elim (store_entities-Runs pg (norm ∷ []) source user db going c) [
        | inl (ids, returns, stored) ↦ rw returns (inr (stored, omega arith))
        | inr (refusal, raised, lost) ↦
            inl (refusal, after-lost pg norm (store_entities pg (norm ∷ []) source user db) r lost)
      ]
  extracted-IsDone source user norm false r db going c =
      nothing-IsDone r (record r { failed = r.failed + 1 }) db refl going c

  normalized-IsDone :
      (source user : Option ℕ) (o : Outcome NormalizedRecord) (r : ProcessingResult) (db : Db)
      → is_begun db.transaction ≡ true
      → IsConsistent db
      → IsDone (accepted_of o) (r, db) (after_normalize pg source user o (r, db))
  unfolding after_normalize
  normalized-IsDone source user (ok norm) r db going c =
      rw (extract_entities_lem norm)
        (extracted-IsDone source user norm (is_storable norm) r db going c)
  normalized-IsDone source user (http_exception code detail) r db going c =
      nothing-IsDone r (record r { failed = r.failed + 1; errors = r.errors ++ detail ∷ [] }) db
        refl going c
  normalized-IsDone source user (unhandled error) r db going c =
      nothing-IsDone r (record r { failed = r.failed + 1; errors = r.errors ++ error ∷ [] }) db refl
        going c

  extracted-lost :
      (source user : Option ℕ) (norm : NormalizedRecord) (storable : Bool) (r : ProcessingResult)
      (db : Db)
      → is_begun db.transaction ≡ false
      → (store_extracted pg source user (if storable then norm ∷ [] else []) (r, db)).1 ≡ db
  unfolding store_extracted after_store
  extracted-lost source user norm true r db lost =
      let (error, e) = store_entities-lost pg norm source user db lost in rw e refl
  extracted-lost source user norm false r db lost = refl

  normalized-lost :
      (source user : Option ℕ) (o : Outcome NormalizedRecord) (r : ProcessingResult) (db : Db)
      → is_begun db.transaction ≡ false
      → (after_normalize pg source user o (r, db)).1 ≡ db
  unfolding after_normalize
  normalized-lost source user (ok norm) r db lost =
      rw (extract_entities_lem norm) (extracted-lost source user norm (is_storable norm) r db lost)
  normalized-lost source user (http_exception code detail) r db lost = refl
  normalized-lost source user (unhandled error) r db lost = refl

finish-lost :
    (t : Transaction) (refused : Option String) (before : Db) (s : ProcessingResult × Db)
    → is_begun t ≡ false
    → (finish t refused none before s).1 ≡ before
unfolding finish
finish-lost begun refused before s h = cc
finish-lost inactive refused before s h = refl
finish-lost aborted refused before s h = refl

finish-refused :
    (t : Transaction) (error : String) (before : Db) (s : ProcessingResult × Db)
    → (finish t (some error) none before s).1 ≡ before
unfolding finish
finish-refused begun error before s = refl
finish-refused inactive error before s = refl
finish-refused aborted error before s = refl

finish-going :
    (t : Transaction) (before : Db) (s : ProcessingResult × Db)
    → is_begun t ≡ true
    → finish t none none before s ≡ s
unfolding finish
finish-going begun before s h = refl
finish-going inactive before s h = cc
finish-going aborted before s h = cc

finish-failed :
    (t : Transaction) (refused : Option String) (error : String) (before : Db)
    (s : ProcessingResult × Db)
    → (finish t refused (some error) before s).1 ≡ before
unfolding finish
finish-failed begun none error before s = refl
finish-failed begun (some e) error before s = refl
finish-failed inactive refused error before s = refl
finish-failed aborted refused error before s = refl

same-counted :
    (count : ProcessingResult → ℕ) (t : Transaction) (refused : Option String) (error : String)
    (before : Db) (s : ProcessingResult × Db)
    → ((r : ProcessingResult) (errors : List String)
        → count (record r { errors = errors }) ≡ count r)
    → count (finish t refused (some error) before s).0 ≡ count (finish t refused none before s).0
same-counted count t refused error before s h =
    finish-same count t refused (some error) before s h
    ∙ sym (finish-same count t refused none before s h)

module _ (tools : Tools) (pg : Postgres) (source user : Option ℕ) where
  loop-lost :
      (records : List Dict) (s : ProcessingResult × Db)
      → is_begun s.1.transaction ≡ false
      → is_begun (process_loop tools pg source user records s).1.transaction ≡ false
  unfolding process_loop process_record
  loop-lost [] s lost = lost
  loop-lost (raw ∷ rest) s lost =
      let same = normalized-lost pg source user (normalize_record tools raw) s.0 s.1 lost in
      loop-lost rest _ (ap (λ db. is_begun db.transaction) same ∙ lost)

  loop-IsDone :
      (records : List Dict) (s : ProcessingResult × Db)
      → is_begun s.1.transaction ≡ true
      → IsConsistent s.1
      → IsDone pg (accepted tools records) s (process_loop tools pg source user records s)
  unfolding process_loop process_record accepted
  loop-IsDone [] s going c = nothing-IsDone pg s.0 s.0 s.1 refl going c
  loop-IsDone (raw ∷ rest) s going c =
      let norms = accepted_of (normalize_record tools raw) in
      elim (normalized-IsDone pg source user (normalize_record tools raw) s.0 s.1 going c) [
        | inl (refusal, lost) ↦
            inl (Refuses-before pg norms (accepted tools rest) s.1 refusal, loop-lost rest _ lost)
        | inr (stored, counted) ↦
            elim (loop-IsDone rest (process_record tools pg source user raw s) stored.going
              stored.consistent) [
                | inl (refusal, lost) ↦
                    inl (Refuses-after pg norms (accepted tools rest) s.1 _ stored refusal, lost)
                | inr (stored', counted') ↦ inr (
                  IsStored-append norms (accepted tools rest) _ _ _ stored stored',
                  omega (arith, counted, counted', length-append norms (accepted tools rest)),
                )
              ]
      ]

  -- From a consistent database, in a transaction that goes on, and where nothing else makes the commit
  -- fail, a batch is stored whole or not at all. Call accepted the records that normalise and have a
  -- name and a storable type. Either PostgreSQL refuses the tables with the first of the accepted
  -- records stored, or a query for one of them, and the database is the one before the batch. Or the
  -- database is consistent again, its canonical entities have just the types and names that were there
  -- and those of the accepted records, and as many records are counted as successful as are accepted.
  pub process_records-accepted :
      (records : List Dict) (db : Db)
      → is_begun db.transaction ≡ true
      → IsConsistent db
      → let (r, after) = process_records tools pg source user records none db in
        (Refuses pg (accepted tools records) db × (after ≡ db))
        ⊎ (IsStored (accepted tools records) db after
            × (r.successful ≡ length (accepted tools records)))
  unfolding process_records process_batch to_dict
  process_records-accepted records db going c =
      let s = process_loop tools pg source user records (fresh_result (length records), db) in
      elim (loop-IsDone records (fresh_result (length records), db) going c) [
        | inl (refusal, lost) ↦ inl (refusal, finish-lost s.1.transaction _ db s lost)
        | inr (stored, counted) ↦ elim (Option-cases (pg.refuses s.1)) [
          | inl kept ↦ rw kept (
              rw (finish-going s.1.transaction db s stored.going)
                (inr (stored, omega (arith, counted))))
          | inr (error, refused) ↦ rw refused (
              inl (
                inl (accepted tools records, [], s.1, error, sym (append-nil _), stored, refused),
                finish-refused s.1.transaction error db s,
              ))
        ]
      ]

  -- When the commit fails the database is the one before the batch, and yet the counters are those
  -- of a batch that was committed: the records are still reported as successful.
  pub process_records-rollback :
      (records : List Dict) (error : String) (db : Db)
      → let (r, after) = process_records tools pg source user records (some error) db in
        let committed = (process_records tools pg source user records none db).0 in
        (after ≡ db)
        × (r.successful ≡ committed.successful)
        × (r.failed ≡ committed.failed)
        × (r.entities_created ≡ committed.entities_created)
  unfolding process_records process_batch to_dict
  process_records-rollback records error db =
      let s = process_loop tools pg source user records (fresh_result (length records), db) in
      let t = s.1.transaction in
      let refused = pg.refuses s.1 in
      (
        finish-failed t refused error db s,
        same-counted (λ r. r.successful) t refused error db s (λ r e. refl),
        same-counted (λ r. r.failed) t refused error db s (λ r e. refl),
        same-counted (λ r. r.entities_created) t refused error db s (λ r e. refl),
      )
