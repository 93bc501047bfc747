-- ===== src/Api/Search/Examples.antt =====
-- The universal search at concrete inputs.
use osint_platform_core.Base.{ℕ, true, false, none, some, [], ◌∷◌, str_eq, ◌≡◌, refl, if◌then◌else◌}
use osint_platform_core.Base.Http.{Outcome, ok, unhandled}
use osint_platform_core.Ingestion.Store.{Entity}
use osint_platform_core.Api.Cases.Rows.{Case}
use osint_platform_core.Api.Search.{Backends, Db, SearchResponse, universal_search}
use osint_platform_core.Api.Search.Fallback.{universal_search-unhandled}

abbrev eve : Entity
eve = record {
  id = 1;
  entity_type = "person";
  name = "Eve";
  aliases = [];
  attributes = [];
  confidence_score = 500000;
  is_canonical = true;
  canonical_id = none;
  created_by = none;
}

abbrev theft : Case
theft = record {
  id = 3;
  name = "Eve";
  description = none;
  status = "open";
  priority = "high";
  tags = [];
  created_by = none;
  assigned_to = none;
}

abbrev db : Db
db = record {
  entities = eve ∷ [];
  cases = theft ∷ [];
  sources = record { id = 4; name = "Feed"; source_type = "rss" } ∷ [];
}

abbrev postgres : Backends
postgres = record {
  contains = λ term value. str_eq term value;
  starts_with = λ term value. str_eq term value;
  cast_ilike = unhandled "TypeError";
  id_text = λ id. "id";
  elasticsearch = none;
}

-- Elasticsearch has one document, of another name, and does not answer for Mallory.
abbrev both : Backends
both = record postgres {
  elasticsearch = some (λ query index filters size from.
      if str_eq query "Mallory"
      then none
      else some (
          record {
            id = "x";
            name = some "Evelyn";
            entity_type = some "person";
            score = 2000000;
            source = [];
          }
          ∷ []));
}

universal_search-unhandled_example :
    universal_search both "Eve" none none 0 10 db ≡ unhandled "TypeError"
universal_search-unhandled_example =
    universal_search-unhandled both "Eve" none none 0 10 db "TypeError" refl

-- Were the cast a type, the document and the rows of all tables would be found.
abbrev hits_of : Outcome SearchResponse → ℕ
hits_of (ok r) = r.total
hits_of _ = 0

found_in_both :
    hits_of (
      universal_search
        (record both { cast_ilike = ok (λ term aliases. false) })
        "Eve"
        none
        none
        0
        10
        db)
    ≡ 3
unfolding universal_search
found_in_both = refl
