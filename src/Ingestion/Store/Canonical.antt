-- ===== src/Ingestion/Store/Canonical.antt =====
-- backend/ingestion/queue/processor.py, `store_entities`: canonical entities and links to sources.
use mathlib.Core.List.{append_assoc}
use osint_platform_core.Base.{
  ℕ, String, Bool, true, false, Option, none, some, List, [], ◌∷◌, ◌++◌, ◌==◌, ◌≡◌, refl, ◌∙◌,
  arith, str_eq, str_eq_iff, str_eq_refl, ap, sym, keep, any, inl, inr, ◌⊎◌, ◌&&◌, ◌||◌, Bool-cases,
}
use osint_platform_core.Base.Rows.{update, any-update}
use osint_platform_core.Base.Apart.{AreApart, keep-AreApart, AreApart-append, AreApart-update}
use osint_platform_core.Base.Http.{
  Outcome, ok, http_exception, unhandled, Handler, pure, continue, ◌>>=◌,
}
use osint_platform_core.Ingestion.Records.{NormalizedRecord}
use osint_platform_core.Ingestion.Store.{
  Entity, EntitySource, Db, Postgres, Transaction, begun, inactive, aborted, scalar_one_or_none,
  is_canonical_of, merge_entity, new_entity, upsert, add_entity, add_link, link_source,
  store_entity, store_entities, flush, execute, flush_in, flushed, answer,
}

abbrev pub same_key : Entity → Entity → Bool
same_key a b =
    str_eq a.entity_type b.entity_type && str_eq a.name b.name && (a.is_canonical && b.is_canonical)

abbrev pub same_link : EntitySource → EntitySource → Bool
same_link a b = a.entity_id == b.entity_id && a.source_id == b.source_id

pub record IsConsistent (db : Db) : Type 0 where
  pub canonical : AreApart same_key db.entities
  pub linked : AreApart same_link db.entity_sources

selects-key :
    (t n : String) (x y : Entity)
    → is_canonical_of t n x ≡ true
    → same_key x y ≡ false
    → is_canonical_of t n y ≡ false
selects-key t n x y h k = ground (
  arith,
  str_eq_iff x.entity_type t,
  str_eq_iff y.entity_type t,
  str_eq_iff x.entity_type y.entity_type,
  str_eq_iff x.name n,
  str_eq_iff y.name n,
  str_eq_iff x.name y.name,
)

abbrev is_link : (entity_id source_id : ℕ) → EntitySource → Bool
is_link entity_id source_id l = l.entity_id == entity_id && l.source_id == source_id

selects-link :
    (e s : ℕ) (x y : EntitySource)
    → is_link e s x ≡ true
    → same_link x y ≡ false
    → is_link e s y ≡ false
selects-link e s x y h k = ground arith

merge-AreApart :
    (norm : NormalizedRecord) (q : Entity → Bool) (es : List Entity)
    → AreApart same_key es
    → AreApart same_key (update q (merge_entity norm) es)
unfolding merge_entity
merge-AreApart norm q es a =
    AreApart-update same_key q (merge_entity norm) (λ x y. refl) (λ x y. refl) es a

new-AreApart :
    (user : Option ℕ) (id : ℕ) (norm : NormalizedRecord) (es : List Entity)
    → keep (is_canonical_of norm.entity_type norm.name) es ≡ []
    → AreApart same_key es
    → AreApart same_key (es ++ new_entity id user norm ∷ [])
unfolding new_entity
new-AreApart user id norm es none' a =
    AreApart-append same_key (is_canonical_of norm.entity_type norm.name) _ (λ y h. ground arith) es
      none' a

abbrev pub is_begun : Transaction → Bool
is_begun begun = true
is_begun inactive = false
is_begun aborted = false

abbrev is_ok : {A : Type 0} → Outcome A → Bool
is_ok (ok a) = true
is_ok (http_exception code detail) = false
is_ok (unhandled error) = false

-- whether the tables have a canonical entity of the type and the name
abbrev pub has_entity : (entity_type name : String) → Db → Bool
has_entity t n db = any (is_canonical_of t n) db.entities

abbrev pub is_named : (entity_type name : String) → NormalizedRecord → Bool
is_named t n norm = str_eq norm.entity_type t && str_eq norm.name n

-- The tables after the records were stored: consistent again, in a transaction that goes on, with
-- the canonical entities that were there and those of the records, and no others.
pub record IsStored (norms : List NormalizedRecord) (before after : Db) : Type 0 where
  pub going : is_begun after.transaction ≡ true
  pub consistent : IsConsistent after
  pub has :
      (t n : String) → has_entity t n after ≡ (has_entity t n before || any (is_named t n) norms)

pub Option-cases : {A : Type 0} (o : Option A) → (o ≡ none) ⊎ ((a : A) × (o ≡ some a))
Option-cases none = inl refl
Option-cases (some a) = inr (a, refl)

continue-raised :
    {A B : Type 0} (o : Outcome A) (f : A → Handler Db B) (db : Db)
    → is_ok o ≡ false
    → (is_ok (continue o f db).0 ≡ false) × ((continue o f db).1 ≡ db)
continue-raised (ok a) f db h = cc
continue-raised (http_exception code detail) f db h = (refl, refl)
continue-raised (unhandled error) f db h = (refl, refl)

any-append :
    {A : Type 0} (p : A → Bool) (xs ys : List A) → any p (xs ++ ys) ≡ (any p xs || any p ys)
any-append p [] ys = refl
any-append p (x ∷ xs) ys = ground (arith, any-append p xs ys)

or-chain : (a b c x y z : Bool) → b ≡ (a || x) → c ≡ (b || y) → z ≡ (x || y) → c ≡ (a || z)
or-chain a b c x y z h k l = ground (arith, h, k, l)

-- Storing after storing.
pub IsStored-append :
    (xs ys : List NormalizedRecord) (a b c : Db)
    → IsStored xs a b
    → IsStored ys b c
    → IsStored (xs ++ ys) a c
IsStored-append xs ys a b c h k = record {
  going = k.going;
  consistent = k.consistent;
  has = λ t n.
      or-chain _ _ _ (any (is_named t n) xs) (any (is_named t n) ys) _ (h.has t n) (k.has t n)
        (any-append (is_named t n) xs ys);
}

or-true : (x : Bool) → (x || true) ≡ true
or-true true = refl
or-true false = refl

-- PostgreSQL refuses the tables with the first of the records stored, or a query for one of them.
abbrev pub Refuses : Postgres → List NormalizedRecord → Db → Type 0
Refuses pg norms before =
    ((pre post : List NormalizedRecord) × (db : Db) × (error : String) × (norms ≡ pre ++ post)
      × IsStored pre before db
      × (pg.refuses db ≡ some error))
    ⊎ ((t n error : String) × (any (is_named t n) norms ≡ true)
        × (pg.refuses_query t n ≡ some error))

-- What is refused among some records is refused among more.
pub Refuses-before :
    (pg : Postgres) (xs ys : List NormalizedRecord) (a : Db)
    → Refuses pg xs a
    → Refuses pg (xs ++ ys) a
Refuses-before pg xs ys a (inl (pre, post, db, error, split, stored, refused)) = inl (
  pre,
  post ++ ys,
  db,
  error,
  ap (λ zs. zs ++ ys) split ∙ append_assoc pre post ys,
  stored,
  refused,
)
Refuses-before pg xs ys a (inr (t, n, error, asked, refused)) =
    inr (t, n, error, any-append (is_named t n) xs ys ∙ rw asked refl, refused)

pub Refuses-after :
    (pg : Postgres) (xs ys : List NormalizedRecord) (a b : Db)
    → IsStored xs a b
    → Refuses pg ys b
    → Refuses pg (xs ++ ys) a
Refuses-after pg xs ys a b h (inl (pre, post, db, error, split, stored, refused)) = inl (
  xs ++ pre,
  post,
  db,
  error,
  ap (λ zs. xs ++ zs) split ∙ sym (append_assoc xs pre post),
  IsStored-append xs pre a b db h stored,
  refused,
)
Refuses-after pg xs ys a b h (inr (t, n, error, asked, refused)) =
    inr (t, n, error, any-append (is_named t n) xs ys ∙ rw asked (or-true _), refused)

pub nothing-IsStored :
    (db : Db) → is_begun db.transaction ≡ true → IsConsistent db → IsStored [] db db
nothing-IsStored db going c = record { going = going; consistent = c; has = λ t n. ground arith }

named_itself :
    (norm : NormalizedRecord) → any (is_named norm.entity_type norm.name) (norm ∷ []) ≡ true
named_itself norm = rw (str_eq_refl norm.entity_type, str_eq_refl norm.name) refl

any-keep : {A : Type 0} (p : A → Bool) (xs : List A) (x : A) → keep p xs ≡ x ∷ [] → any p xs ≡ true
any-keep p [] x h = cc
any-keep p (y ∷ ys) x h = elim (Bool-cases (p y)) [
  | inl here ↦ rw here refl
  | inr other ↦
      let h' : keep p ys ≡ x ∷ [] = rw other at h in let k = any-keep p ys x h' in ground arith
]

-- A record whose entity is there adds no type and name.
already :
    (t n : String) (norm : NormalizedRecord) (db : Db) (e : Entity)
    → keep (is_canonical_of norm.entity_type norm.name) db.entities ≡ e ∷ []
    → has_entity t n db ≡ (has_entity t n db || any (is_named t n) (norm ∷ []))
already t n norm db e present = elim (Bool-cases (is_named t n norm)) [
  | inr other ↦ ground (arith, other)
  | inl same ↦
      let types : norm.entity_type ≡ t = (str_eq_iff norm.entity_type t).0 (ground (arith, same)) in
      let names : norm.name ≡ n = (str_eq_iff norm.name n).0 (ground (arith, same)) in
      let there : has_entity norm.entity_type norm.name db ≡ true =
        any-keep (is_canonical_of norm.entity_type norm.name) db.entities e present in
      let there' : has_entity t n db ≡ true = rw (types, names) at there in ground (arith, there')
]

module _ (pg : Postgres) where
  -- A handler raises for a reason, and the transaction is lost.
  abbrev IsLost : {A : Type 0} → Type 0 → Outcome A × Db → Type 0
  IsLost W (o, db) = W × (is_ok o ≡ false) × (is_begun db.transaction ≡ false)

  -- A handler returns from the database with the condition, or is lost.
  abbrev pub Runs : {A : Type 0} → Type 0 → Handler Db A → Db → (Db → Type 0) → Type 0
  Runs {A} W m db Q = ((a : A) × ((m db).0 ≡ ok a) × Q (m db).1) ⊎ IsLost W (m db)

  Runs-bind :
      {A B : Type 0} (m : Handler Db A) (f : A → Handler Db B) (db : Db) (W : Type 0)
      (Q R : Db → Type 0)
      → Runs W m db Q
      → ((a : A) (db' : Db) → Q db' → Runs W (f a) db' R)
      → Runs W (m >>= f) db R
  Runs-bind m f db W Q R (inl (a, returns, q)) next = rw returns (next a (m db).1 q)
  Runs-bind m f db W Q R (inr (refusal, raised, lost)) next =
      let (raised', same) = continue-raised (m db).0 f (m db).1 raised in
      inr (refusal, raised', rw same lost)

  -- A flush in a transaction that goes on changes nothing, or is refused.
  abbrev IsFlushed : Db → Outcome (Unit {0}) × Db → Type 0
  IsFlushed db r =
      (r ≡ (ok tt, db))
      ⊎ ((error : String) × (pg.refuses db ≡ some error)
          × (r ≡ (unhandled error, record db { transaction = inactive })))

  flush_in-IsFlushed :
      (t : Transaction) (db : Db) → is_begun t ≡ true → IsFlushed db (flush_in pg t db)
  unfolding flush_in flushed
  flush_in-IsFlushed begun db h = elim (Option-cases (pg.refuses db)) [
    | inl kept ↦ rw kept (inl refl)
    | inr (error, refused) ↦ rw refused (inr (error, refl, refl))
  ]
  flush_in-IsFlushed inactive db h = cc
  flush_in-IsFlushed aborted db h = cc

  flush-IsFlushed : (db : Db) → is_begun db.transaction ≡ true → IsFlushed db (flush pg db)
  unfolding flush
  flush-IsFlushed db h = flush_in-IsFlushed db.transaction db h

  -- A flush, or a query, and what follows it in the same database.
  flush-Runs :
      {B : Type 0} (f : Unit {0} → Handler Db B) (db : Db) (W : Type 0) (R : Db → Type 0)
      → is_begun db.transaction ≡ true
      → ((error : String) → pg.refuses db ≡ some error → W)
      → Runs W (f tt) db R
      → Runs W (flush pg >>= f) db R
  flush-Runs f db W R going why next = elim (flush-IsFlushed db going) [
    | inl kept ↦ rw kept next
    | inr (error, refused, e) ↦ rw e (inr (why error refused, refl, refl))
  ]

  execute-Runs :
      {A B : Type 0} (denied : Option String) (rows : Db → List A) (f : List A → Handler Db B)
      (db : Db) (W : Type 0) (R : Db → Type 0)
      → is_begun db.transaction ≡ true
      → ((error : String) → pg.refuses db ≡ some error → W)
      → ((error : String) → denied ≡ some error → W)
      → Runs W (f (rows db)) db R
      → Runs W (execute pg denied rows >>= f) db R
  unfolding execute answer
  execute-Runs none rows f db W R going why why' next = elim (flush-IsFlushed db going) [
    | inl kept ↦ rw kept next
    | inr (error, refused, e) ↦ rw e (inr (why error refused, refl, refl))
  ]
  execute-Runs (some denial) rows f db W R going why why' next = elim (flush-IsFlushed db going) [
    | inl kept ↦ rw kept (inr (why' denial refl, refl, refl))
    | inr (error, refused, e) ↦ rw e (inr (why error refused, refl, refl))
  ]

  Runs-because :
      {A : Type 0} (m : Handler Db A) (db : Db) (W W' : Type 0) (Q : Db → Type 0)
      → (W → W')
      → Runs W m db Q
      → Runs W' m db Q
  Runs-because m db W W' Q f (inl h) = inl h
  Runs-because m db W W' Q f (inr (why, raised, lost)) = inr (f why, raised, lost)

  link-Runs :
      (norm : NormalizedRecord) (source : Option ℕ) (id : ℕ) (before db : Db)
      → IsStored (norm ∷ []) before db
      → Runs
          (Refuses pg (norm ∷ []) before)
          (link_source pg norm source id)
          db
          (IsStored (norm ∷ []) before)
  unfolding link_source scalar_one_or_none add_link
  link-Runs norm none id before db c = inl (tt, refl, c)
  link-Runs norm (some s) id before db c =
      execute-Runs none (λ x. keep (is_link id s) x.entity_sources) _ db
        (Refuses pg (norm ∷ []) before) (IsStored (norm ∷ []) before) c.going
        (λ error h. inl (norm ∷ [], [], db, error, refl, c, h)) (λ error h. cc)
        (elim (keep-AreApart same_link (is_link id s) (selects-link id s) db.entity_sources
          c.consistent.linked) [
            | inl absent ↦ rw absent (
                inl (
                  tt,
                  refl,
                  record {
                    going = c.going;
                    consistent = record {
                      canonical = c.consistent.canonical;
                      linked =
                          AreApart-append same_link (is_link id s) _ (λ y h. h) db.entity_sources
                            absent c.consistent.linked;
                    };
                    has = c.has;
                  },
                ))
            | inr (l, present) ↦ rw present (inl (tt, refl, c))
          ])

  added-IsStored :
      (user : Option ℕ) (norm : NormalizedRecord) (db : Db)
      → keep (is_canonical_of norm.entity_type norm.name) db.entities ≡ []
      → is_begun db.transaction ≡ true
      → IsConsistent db
      → IsStored (norm ∷ []) db (add_entity user norm db).1
  unfolding add_entity new_entity
  added-IsStored user norm db fresh going c = record {
    going = going;
    consistent = record {
      canonical = new-AreApart user db.next_id norm db.entities fresh c.canonical;
      linked = c.linked;
    };
    has = λ t n. any-append (is_canonical_of t n) db.entities _ ∙ ground arith;
  }

  upsert-new :
      (user : Option ℕ) (norm : NormalizedRecord) (db : Db)
      → keep (is_canonical_of norm.entity_type norm.name) db.entities ≡ []
      → is_begun db.transaction ≡ true
      → IsConsistent db
      → Runs (Refuses pg (norm ∷ []) db) (upsert pg user norm none) db (IsStored (norm ∷ []) db)
  unfolding upsert add_entity
  upsert-new user norm db fresh going c =
      let stored = added-IsStored user norm db fresh going c in
      flush-Runs (λ u. pure db.next_id) (add_entity user norm db).1 (Refuses pg (norm ∷ []) db)
        (IsStored (norm ∷ []) db) stored.going
        (λ error h. inl (norm ∷ [], [], _, error, refl, stored, h)) (inl (db.next_id, refl, stored))

  upsert-found :
      (user : Option ℕ) (norm : NormalizedRecord) (e : Entity) (db : Db)
      → keep (is_canonical_of norm.entity_type norm.name) db.entities ≡ e ∷ []
      → is_begun db.transaction ≡ true
      → IsConsistent db
      → Runs (Refuses pg (norm ∷ []) db) (upsert pg user norm (some e)) db (IsStored (norm ∷ []) db)
  unfolding upsert merge_entity
  upsert-found user norm e db present going c = inl (
    e.id,
    refl,
    record {
      going = going;
      consistent = record {
        canonical = merge-AreApart norm (λ d. d.id == e.id) db.entities c.canonical;
        linked = c.linked;
      };
      has = λ t n.
          any-update (λ d. d.id == e.id) (merge_entity norm) (is_canonical_of t n) db.entities
            (λ x. refl)
          ∙ already t n norm db e present;
    },
  )

  tail-Runs :
      (source user : Option ℕ) (norm : NormalizedRecord) (existing : Option Entity) (db : Db)
      → Runs (Refuses pg (norm ∷ []) db) (upsert pg user norm existing) db (IsStored (norm ∷ []) db)
      → Runs
          (Refuses pg (norm ∷ []) db)
          (do id ← upsert pg user norm existing; _ ← link_source pg norm source id; pure id)
          db
          (IsStored (norm ∷ []) db)
  tail-Runs source user norm existing db upserted =
      Runs-bind (upsert pg user norm existing) _ db (Refuses pg (norm ∷ []) db)
        (IsStored (norm ∷ []) db) (IsStored (norm ∷ []) db) upserted
        λ id db' c.
          Runs-bind (link_source pg norm source id) _ db' (Refuses pg (norm ∷ []) db)
            (IsStored (norm ∷ []) db) (IsStored (norm ∷ []) db) (link-Runs norm source id db db' c)
            λ u db'' c'. inl (id, refl, c')

  store_entity-Runs :
      (source user : Option ℕ) (norm : NormalizedRecord) (db : Db)
      → is_begun db.transaction ≡ true
      → IsConsistent db
      → Runs
          (Refuses pg (norm ∷ []) db)
          (store_entity pg source user norm)
          db
          (IsStored (norm ∷ []) db)
  unfolding store_entity scalar_one_or_none
  store_entity-Runs source user norm db going c =
      execute-Runs _ _ _ db (Refuses pg (norm ∷ []) db) (IsStored (norm ∷ []) db) going
        (λ error h. inl ([], norm ∷ [], db, error, refl, nothing-IsStored db going c, h))
        (λ error h. inr (norm.entity_type, norm.name, error, named_itself norm, h))
        (elim (keep-AreApart same_key (is_canonical_of norm.entity_type norm.name)
          (selects-key norm.entity_type norm.name) db.entities c.canonical) [
            | inl absent ↦
                rw absent
                  (tail-Runs source user norm none db (upsert-new user norm db absent going c))
            | inr (e, present) ↦ rw present (
                tail-Runs source user norm (some e) db
                  (upsert-found user norm e db present going c))
          ])

  -- From a consistent database, in a transaction that goes on, storing records either returns, or it
  -- raises and the transaction is lost. It raises where PostgreSQL refuses the tables with the first
  -- of the records stored or a query for one of them, and never with `MultipleResultsFound`. If it
  -- returns, the database is consistent (no two canonical entities of one type and name, no two links
  -- of one entity with one source), and it has canonical entities of just those types and names that
  -- it had or that a record has.
  pub store_entities-Runs :
      (norms : List NormalizedRecord) (source user : Option ℕ) (db : Db)
      → is_begun db.transaction ≡ true
      → IsConsistent db
      → Runs (Refuses pg norms db) (store_entities pg norms source user) db (IsStored norms db)
  unfolding store_entities
  store_entities-Runs [] source user db going c = inl ([], refl, nothing-IsStored db going c)
  store_entities-Runs (norm ∷ rest) source user db going c =
      Runs-bind (store_entity pg source user norm) _ db (Refuses pg (norm ∷ rest) db)
        (IsStored (norm ∷ []) db) (IsStored (norm ∷ rest) db)
        (Runs-because (store_entity pg source user norm) db (Refuses pg (norm ∷ []) db)
          (Refuses pg (norm ∷ rest) db) (IsStored (norm ∷ []) db)
          (Refuses-before pg (norm ∷ []) rest db) (store_entity-Runs source user norm db going c))
        λ id db' s.
          Runs-bind (store_entities pg rest source user) _ db' (Refuses pg (norm ∷ rest) db)
            (IsStored rest db') (IsStored (norm ∷ rest) db)
            (Runs-because (store_entities pg rest source user) db' (Refuses pg rest db')
              (Refuses pg (norm ∷ rest) db) (IsStored rest db')
              (Refuses-after pg (norm ∷ []) rest db db' s)
              (store_entities-Runs rest source user db' s.going s.consistent))
            λ ids db'' s'. inl (id ∷ ids, refl, IsStored-append (norm ∷ []) rest db db' db'' s s')

  flush_in-lost :
      (t : Transaction) (db : Db)
      → is_begun t ≡ false
      → (error : String) × (flush_in pg t db ≡ (unhandled error, db))
  unfolding flush_in
  flush_in-lost begun db h = cc
  flush_in-lost inactive db h = (_, refl)
  flush_in-lost aborted db h = (_, refl)

  -- In a transaction that is lost, storing a record changes nothing.
  pub store_entities-lost :
      (norm : NormalizedRecord) (source user : Option ℕ) (db : Db)
      → is_begun db.transaction ≡ false
      → (error : String) × (store_entities pg (norm ∷ []) source user db ≡ (unhandled error, db))
  unfolding store_entities store_entity execute flush
  store_entities-lost norm source user db h =
      let (error, e) = flush_in-lost db.transaction db h in (error, rw e refl)
