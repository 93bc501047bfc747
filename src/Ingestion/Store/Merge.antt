-- ===== src/Ingestion/Store/Merge.antt =====
-- backend/ingestion/queue/processor.py, `store_entities`: the merge into an entity that is there.
use osint_platform_core.Base.{String, List, [], ◌∷◌, ◌++◌, str_in, if◌then◌else◌}

abbrev with_alias : String → List String → List String
with_alias a existing = if str_in a existing then existing else existing ++ a ∷ []
