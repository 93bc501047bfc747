-- ===== src/Api/Search.antt =====
-- backend/api/v1/routes/search.py: the search over entities, cases and sources, with search_entities
-- of backend/storage/database/postgres/queries.py.
pub mod Fallback
mod Examples
use osint_platform_core.Base.{
  ℕ, String, Bool, true, false, Option, none, some, List, [], ◌∷◌, ◌++◌, str_eq, str_in, not, keep,
  map, take, length, if◌then◌else◌, ◌&&◌, ◌||◌, is_nil,
}
use osint_platform_core.Base.Http.{Outcome, ok, http_exception, unhandled}
use osint_platform_core.Base.Text.{is_empty}
use osint_platform_core.Base.Json.{text}
use osint_platform_core.Storage.Queries.{get_all}
use osint_platform_core.Ingestion.Records.{Dict}
use osint_platform_core.Ingestion.Store.{Entity}
use osint_platform_core.Api.Cases.Rows.{Case}

-- The columns of `Source` that the search reads.
pub record NamedSource : Type 0 where
  pub id : ℕ
  pub name : String
  pub source_type : String

pub record Db : Type 0 where
  pub entities : List Entity
  pub cases : List Case
  pub sources : List NamedSource

-- A hit of Elasticsearch; the fields of `_source` that are read may be missing.
pub record RawHit : Type 0 where
  pub id : String
  pub name : Option String
  pub entity_type : Option String
  pub score : ℕ
  pub source : Dict

-- PostgreSQL, uuid and Elasticsearch: ILIKE with a pattern around or behind the term, a JSONB column
-- cast to a type and matched, where SQLAlchemy builds that expression, a UUID as text, and the hits of
-- a query, of which none is an exception. Without ES_URL there is no Elasticsearch.
pub record Backends : Type 0 where
  pub contains : (term value : String) → Bool
  pub starts_with : (term value : String) → Bool
  pub cast_ilike : Outcome ((term : String) → List String → Bool)
  pub id_text : ℕ → String
  pub elasticsearch :
      Option ((query index : String) → (filters : Dict) → (size from : ℕ) → Option (List RawHit))

pub record SearchHit : Type 0 where
  pub resource_type : String
  pub id : String
  pub name : String
  pub entity_type : Option String
  pub score : ℕ
  pub attributes : Dict

-- `total` is the number of hits that are returned.
pub record SearchResponse : Type 0 where
  pub query : String
  pub total : ℕ
  pub hits : List SearchHit
  pub backend : String

abbrev and_then : {A B : Type 0} → Outcome A → (A → Outcome B) → Outcome B
and_then (ok a) f = f a
and_then (http_exception code detail) f = http_exception code detail
and_then (unhandled error) f = unhandled error

abbrev or_nil : Option (List RawHit) → List RawHit
or_nil none = []
or_nil (some hits) = hits

-- `if entity_type`
abbrev pub of_type : Option String → Entity → Bool
of_type none e = true
of_type (some t) e = if is_empty t then true else str_eq e.entity_type t

abbrev or_empty : Option String → String
or_empty none = ""
or_empty (some s) = s

abbrev pub wants : (kind : String) → (resource_type : Option String) → Bool
wants kind none = true
wants kind (some t) = str_eq t kind

abbrev pub type_filter : Option String → Dict
type_filter none = []
type_filter (some t) = if is_empty t then [] else ("entity_type", text t) ∷ []

abbrev backend_of : List SearchHit → String
backend_of hits = if is_nil hits then "postgresql" else "elasticsearch"

abbrev pub of_raw : (resource_type : String) → RawHit → SearchHit
of_raw resource_type h = record {
  resource_type = resource_type;
  id = h.id;
  name = or_empty h.name;
  entity_type = h.entity_type;
  score = h.score;
  attributes = h.source;
}

module _ (b : Backends) where
  -- The filter is built before the query is sent.
  unfoldable pub search_entities :
      (search_term : String)
      → (entity_type : Option String) → (skip limit : ℕ) → List Entity
      → Outcome (List Entity)
  unfolding get_all
  search_entities search_term entity_type skip limit rows = and_then b.cast_ilike λ cast_ilike. ok (
      get_all skip limit
        (λ e.
          (b.contains search_term e.name || cast_ilike search_term e.aliases)
          && of_type entity_type e)
        rows)

  unfoldable pub es_search :
      (query index : String) → (filters : Dict) → (size from : ℕ) → List RawHit
  es_search query index filters size from = elim b.elasticsearch [
    | none ↦ []
    | some es ↦ or_nil (es query index filters size from)
  ]

  abbrev pub of_entity : Entity → SearchHit
  of_entity e = record {
    resource_type = "entity";
    id = b.id_text e.id;
    name = e.name;
    entity_type = some e.entity_type;
    score = e.confidence_score;
    attributes = e.attributes;
  }

  -- The score of a case or a source is 1.
  abbrev pub of_case : Case → SearchHit
  of_case c = record {
    resource_type = "case";
    id = b.id_text c.id;
    name = c.name;
    entity_type = none;
    score = 1000000;
    attributes = ("status", text c.status) ∷ ("priority", text c.priority) ∷ [];
  }

  abbrev pub of_source : NamedSource → SearchHit
  of_source s = record {
    resource_type = "source";
    id = b.id_text s.id;
    name = s.name;
    entity_type = none;
    score = 1000000;
    attributes = ("source_type", text s.source_type) ∷ [];
  }

  -- Elasticsearch, which is asked for entities only.
  unfoldable pub es_hits :
      (q : String) → (entity_type resource_type : Option String) → (skip limit : ℕ) → List SearchHit
  unfolding es_search
  es_hits q entity_type resource_type skip limit =
      if wants "entity" resource_type
      then map (of_raw "entity") (es_search q "entities" (type_filter entity_type) limit skip)
      else []

  abbrev new_entities : List Entity → List SearchHit → List SearchHit
  new_entities found hits =
      hits ++ map of_entity (keep (λ e. not (str_in (b.id_text e.id) (map (λ h. h.id) hits))) found)

  -- The entities of PostgreSQL, behind the hits of Elasticsearch.
  unfoldable pub add_entities :
      (resource_type : Option String)
      → Outcome (List Entity)
      → List SearchHit
      → Outcome (List SearchHit)
  add_entities resource_type found hits =
      if is_nil hits || wants "entity" resource_type
      then and_then found (λ entities. ok (new_entities entities hits))
      else ok hits

  unfoldable pub case_hits :
      (q : String) → (resource_type : Option String) → ℕ → Db → List SearchHit
  case_hits q resource_type limit db =
      if wants "case" resource_type
      then map of_case (take limit (keep (λ c. b.contains q c.name) db.cases))
      else []

  unfoldable pub source_hits :
      (q : String) → (resource_type : Option String) → ℕ → Db → List SearchHit
  source_hits q resource_type limit db =
      if wants "source" resource_type
      then map of_source (take limit (keep (λ s. b.contains q s.name) db.sources))
      else []

  abbrev respond : (q : String) → (limit : ℕ) → (first all : List SearchHit) → SearchResponse
  respond q limit first all = record {
    query = q;
    total = length (take limit all);
    hits = take limit all;
    backend = backend_of first;
  }

  unfoldable pub universal_search :
      (q : String)
      → (entity_type resource_type : Option String) → (skip limit : ℕ) → Db
      → Outcome SearchResponse
  unfolding es_hits add_entities search_entities case_hits source_hits
  universal_search q entity_type resource_type skip limit db =
      let first = es_hits q entity_type resource_type skip limit in
      let found = search_entities q entity_type skip limit db.entities in
      and_then (add_entities resource_type found first) λ hits. ok (
        respond q limit first
          (hits ++ (case_hits q resource_type limit db ++ source_hits q resource_type limit db)))

  -- `body.index.rstrip("s")`
  unfoldable pub elasticsearch_query :
      (rstrip_s : String → String)
      → (query index : String) → (filters : Dict) → (size from : ℕ) → Outcome SearchResponse
  unfolding es_search
  elasticsearch_query rstrip_s query index filters size from =
      let hits =
        map (λ (h : RawHit). record (of_raw (rstrip_s index) h) { entity_type = none })
          (es_search query index filters size from) in
      elim b.elasticsearch [
        | none ↦
            http_exception 503 "Elasticsearch is not configured (set ES_URL environment variable)"
        | some es ↦
            ok (record {
              query = query;
              total = length hits;
              hits = hits;
              backend = "elasticsearch";
            })
      ]

  unfoldable pub autocomplete_suggest :
      (q : String) → (entity_type : Option String) → (limit : ℕ) → List Entity → List String
  autocomplete_suggest q entity_type limit rows =
      map (λ e. e.name)
        (take limit (keep (λ e. b.starts_with q e.name && of_type entity_type e) rows))
