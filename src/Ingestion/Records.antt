-- ===== src/Ingestion/Records.antt =====
-- backend/ingestion/queue/processor.py: normalised records and the names that are read from raw ones.
use osint_platform_core.Base.{
  ℕ, String, true, false, Option, none, some, List, [], ◌∷◌, str_eq, str_in, if◌then◌else◌,
}
use osint_platform_core.Base.Text.{strip, is_empty}
use osint_platform_core.Base.Json.{
  Value, Items, null, bool, number, text, array, nil, cons, lookup, truthy,
}
use osint_platform_core.Base.Http.{Outcome, ok, unhandled}

-- `Dict[str, Any]`, the fields in their order.
abbrev pub Dict : Type 0
Dict = List (String × Value)

-- A confidence is a number of millionths.
pub record NormalizedRecord : Type 0 where
  pub entity_type : String
  pub name : String
  pub aliases : List String
  pub attributes : Dict
  pub source_url : Option Value
  pub confidence : ℕ

abbrev pub valid_entity_types : List String
valid_entity_types =
    "person" ∷ "organization" ∷ "location" ∷ "ip" ∷ "domain" ∷ "email" ∷ "phone" ∷ "url" ∷ "hash"
    ∷ "cryptocurrency" ∷ "vehicle" ∷ "document" ∷ []

type_name_fields : String → List String
type_name_fields t =
    if str_eq t "person"
    then "name" ∷ "full_name" ∷ "person_name" ∷ "username" ∷ []
    else if str_eq t "organization"
    then "name" ∷ "org_name" ∷ "company" ∷ "organization" ∷ []
    else if str_eq t "location"
    then "name" ∷ "location" ∷ "address" ∷ "place" ∷ []
    else if str_eq t "ip"
    then "ip" ∷ "ip_address" ∷ "address" ∷ "value" ∷ []
    else if str_eq t "domain"
    then "domain" ∷ "hostname" ∷ "fqdn" ∷ "value" ∷ []
    else if str_eq t "email"
    then "email" ∷ "email_address" ∷ "value" ∷ []
    else if str_eq t "phone"
    then "phone" ∷ "phone_number" ∷ "telephone" ∷ "value" ∷ []
    else if str_eq t "url"
    then "url" ∷ "link" ∷ "href" ∷ "value" ∷ []
    else if str_eq t "hash"
    then "hash" ∷ "hash_value" ∷ "md5" ∷ "sha1" ∷ "sha256" ∷ "value" ∷ []
    else if str_eq t "cryptocurrency"
    then "address" ∷ "wallet" ∷ "value" ∷ []
    else if str_eq t "vehicle"
    then "name" ∷ "plate" ∷ "license_plate" ∷ "vin" ∷ "value" ∷ []
    else if str_eq t "document"
    then "title" ∷ "name" ∷ "filename" ∷ "value" ∷ []
    else "name" ∷ "value" ∷ "title" ∷ []

-- `val.strip()`, if `val` is a text that is not blank
usable : Value → Option String
usable (text s) = if is_empty (strip s) then none else some (strip s)
usable _ = none

usable_field : Option Value → Option String
usable_field none = none
usable_field (some v) = usable v

first_field : List String → Dict → Option String
unfolding usable_field usable
first_field [] record' = none
first_field (f ∷ fs) record' = elim (usable_field (lookup f record')) [
  | none ↦ first_field fs record'
  | some s ↦ some s
]

first_value : Dict → String
unfolding usable
first_value [] = ""
first_value ((k, v) ∷ rest) = elim (usable v) [ none ↦ first_value rest | some s ↦ s ]

unfoldable pub extract_name : Dict → String → String
unfolding first_field first_value type_name_fields
extract_name record' entity_type = elim (first_field (type_name_fields entity_type) record') [
  | none ↦ first_value record'
  | some s ↦ s
]

-- `extract_entities`: the record itself, or nothing.
unfoldable pub extract_entities : NormalizedRecord → List NormalizedRecord
extract_entities normalized =
    if is_empty normalized.name
    then []
    else if str_in normalized.entity_type valid_entity_types
    then normalized ∷ []
    else []

-- `d.get(key)` where it counts as true, as `a or b` picks it
abbrev or_field : Option Value → Option Value → Option Value
or_field none o = o
or_field (some v) o = if truthy v then some v else o

-- What the processor takes from the type mapper, the cleaner, and Python: the canonical type of a
-- record, its cleaned attributes or an error, `str` of a container, and `float` of a value.
pub record Tools : Type 0 where
  pub classify_entity : Dict → String
  pub clean_entity_data : String → Dict → Outcome Dict
  pub repr : Value → String
  pub to_float : Value → Outcome ℕ

module _ (tools : Tools) where
  str_of : Value → String
  str_of null = "None"
  str_of (bool true) = "True"
  str_of (bool false) = "False"
  str_of (number t zero) = t
  str_of (text s) = s
  str_of v = tools.repr v

  alias_items : Items → List String
  unfolding str_of
  alias_items nil = []
  alias_items (cons v vs) = let rest = alias_items vs in if truthy v then str_of v ∷ rest else rest

  read_aliases : Option Value → List String
  unfolding alias_items
  read_aliases (some (array vs)) = alias_items vs
  read_aliases (some (text s)) = if is_empty s then [] else s ∷ []
  read_aliases _ = []

  read_confidence : Option Value → Outcome ℕ
  read_confidence none = ok 1000000
  read_confidence (some v) = tools.to_float v

  abbrev and_then : {A B : Type 0} → Outcome A → (A → Outcome B) → Outcome B
  and_then (ok a) f = f a
  and_then (Outcome.http_exception code detail) f = Outcome.http_exception code detail
  and_then (unhandled error) f = unhandled error

  -- `normalize_record`; the source type that the method is also given is not read.
  unfoldable pub normalize_record : Dict → Outcome NormalizedRecord
  unfolding extract_name read_aliases read_confidence
  normalize_record raw =
      let entity_type = tools.classify_entity raw in
      let name = extract_name raw entity_type in
      if is_empty name
      then unhandled "ValueError: cannot determine name for record"
      else and_then (tools.clean_entity_data entity_type raw) λ cleaned.
        and_then (read_confidence (lookup "confidence" raw)) λ confidence. ok (record {
          entity_type = entity_type;
          name = name;
          aliases = read_aliases (or_field (lookup "aliases" raw) (lookup "also_known_as" raw));
          attributes = cleaned;
          source_url = or_field (lookup "source_url" raw) (lookup "url" raw);
          confidence = confidence;
        })
