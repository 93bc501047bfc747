-- ===== src/Api/Search/Fallback.antt =====
-- backend/api/v1/routes/search.py: the search asks PostgreSQL in every case.
use osint_platform_core.Base.{
  ℕ, String, true, Option, ◌≡◌, refl, Bool-cases, inl, inr, ◌||◌, is_nil, arith,
}
use osint_platform_core.Base.Http.{unhandled}
use osint_platform_core.Api.Search.{
  Backends, Db, wants, es_hits, search_entities, add_entities, universal_search,
}

module _ (b : Backends) where
  -- Elasticsearch is asked for entities only, so that there are no hits without that wish.
  asks_postgres :
      (q : String) (entity_type resource_type : Option String) (skip limit : ℕ)
      → (is_nil (es_hits b q entity_type resource_type skip limit) || wants "entity" resource_type)
        ≡ true
  unfolding es_hits
  asks_postgres q entity_type resource_type skip limit =
      elim (Bool-cases (wants "entity" resource_type)) [
        | inl asked ↦ rw asked (ground arith)
        | inr unasked ↦ rw unasked refl
      ]

  -- Where SQLAlchemy refuses to build the cast of the aliases to a text, every search raises that
  -- error: whatever Elasticsearch finds, whatever type of resource is asked for, and whatever the
  -- tables hold.
  pub universal_search-unhandled :
      (q : String) (entity_type resource_type : Option String) (skip limit : ℕ) (db : Db)
      (error : String)
      → b.cast_ilike ≡ unhandled error
      → universal_search b q entity_type resource_type skip limit db ≡ unhandled error
  unfolding universal_search add_entities search_entities
  universal_search-unhandled q entity_type resource_type skip limit db error refused =
      rw (asks_postgres q entity_type resource_type skip limit) (rw refused refl)
