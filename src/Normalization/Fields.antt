-- ===== src/Normalization/Fields.antt =====
-- backend/normalization/mappers/field_mapper.py: the synonyms of field names, and the renaming of the
-- fields of a record. The mapping by dotted paths is left out.
pub mod Renaming
mod Examples
use osint_platform_core.Base.{
  String, Bool, true, false, Option, none, some, List, [], ◌∷◌, ◌++◌, if◌then◌else◌,
}
use osint_platform_core.Base.Json.{Value, Dictionary, lookup, insert}
use osint_platform_core.Ingestion.Records.{Dict}

pub common_synonyms : Dictionary (List String)
common_synonyms =
    ("full_name", "name" ∷ "full_name" ∷ "person_name" ∷ "display_name" ∷ "fullname" ∷ [])
    ∷ ("first_name", "first_name" ∷ "firstname" ∷ "given_name" ∷ "forename" ∷ "fname" ∷ [])
    ∷ ("last_name", "last_name" ∷ "lastname" ∷ "family_name" ∷ "surname" ∷ "lname" ∷ [])
    ∷ ("birth_date", "birth_date" ∷ "dob" ∷ "date_of_birth" ∷ "birthday" ∷ "born" ∷ [])
    ∷ ("nationality", "nationality" ∷ "citizenship" ∷ "country_of_birth" ∷ [])
    ∷ ("occupation", "occupation" ∷ "job" ∷ "profession" ∷ "title" ∷ "role" ∷ [])
    ∷ ("org_type", "org_type" ∷ "type" ∷ "organization_type" ∷ "company_type" ∷ "category" ∷ [])
    ∷ (
      "registration_number",
      "registration_number" ∷ "reg_no" ∷ "company_no" ∷ "ein" ∷ "tax_id" ∷ [],
    )
    ∷ ("founded_date", "founded_date" ∷ "founded" ∷ "established" ∷ "inception_date" ∷ [])
    ∷ ("industry", "industry" ∷ "sector" ∷ "business_type" ∷ [])
    ∷ ("latitude", "latitude" ∷ "lat" ∷ "y" ∷ [])
    ∷ ("longitude", "longitude" ∷ "lon" ∷ "lng" ∷ "long" ∷ "x" ∷ [])
    ∷ ("city", "city" ∷ "municipality" ∷ "town" ∷ "locality" ∷ [])
    ∷ ("state_province", "state" ∷ "province" ∷ "region" ∷ "state_province" ∷ [])
    ∷ ("postal_code", "postal_code" ∷ "zip" ∷ "zipcode" ∷ "postcode" ∷ [])
    ∷ ("country", "country" ∷ "country_code" ∷ "nation" ∷ [])
    ∷ (
      "ip_address",
      "ip" ∷ "ip_address" ∷ "ipaddr" ∷ "address" ∷ "src_ip" ∷ "dst_ip" ∷ "value" ∷ [],
    )
    ∷ ("asn", "asn" ∷ "as_number" ∷ "autonomous_system" ∷ [])
    ∷ ("isp", "isp" ∷ "provider" ∷ "operator" ∷ [])
    ∷ ("domain", "domain" ∷ "fqdn" ∷ "hostname" ∷ "host" ∷ "value" ∷ [])
    ∷ ("registrar", "registrar" ∷ "domain_registrar" ∷ [])
    ∷ ("registered_at", "registered_at" ∷ "created" ∷ "creation_date" ∷ "register_date" ∷ [])
    ∷ ("expires_at", "expires_at" ∷ "expiry" ∷ "expiration_date" ∷ "expiry_date" ∷ [])
    ∷ ("email_address", "email" ∷ "email_address" ∷ "mail" ∷ "e_mail" ∷ "value" ∷ [])
    ∷ ("phone_number", "phone" ∷ "phone_number" ∷ "telephone" ∷ "tel" ∷ "mobile" ∷ "value" ∷ [])
    ∷ ("carrier", "carrier" ∷ "operator" ∷ "network" ∷ [])
    ∷ (
      "hash_value",
      "hash" ∷ "hash_value" ∷ "digest" ∷ "checksum" ∷ "md5" ∷ "sha1" ∷ "sha256" ∷ "value" ∷ [],
    )
    ∷ ("hash_type", "hash_type" ∷ "algorithm" ∷ "type" ∷ [])
    ∷ ("address", "address" ∷ "wallet" ∷ "wallet_address" ∷ "account" ∷ "value" ∷ [])
    ∷ ("currency_type", "currency" ∷ "coin" ∷ "type" ∷ "blockchain" ∷ [])
    ∷ ("url", "url" ∷ "link" ∷ "href" ∷ "source_url" ∷ "web_url" ∷ [])
    ∷ ("name", "name" ∷ "title" ∷ "label" ∷ "value" ∷ [])
    ∷ []

abbrev pub has_key {ℓ} : {V : Type ℓ} → Option V → Bool
has_key none = false
has_key (some v) = true

-- The loops that fill `_ALIAS_TO_CANONICAL`: the first canonical name of an alias stays.
unfoldable pub add_aliases :
    (canonical : String) → List String → Dictionary String → Dictionary String
unfolding lookup insert
add_aliases canonical [] index = index
add_aliases canonical (alias ∷ aliases) index =
    add_aliases canonical aliases
      (if has_key (lookup alias index) then index else insert alias canonical index)

unfoldable pub invert : Dictionary (List String) → Dictionary String → Dictionary String
unfolding add_aliases
invert [] index = index
invert ((canonical, aliases) ∷ rest) index = invert rest (add_aliases canonical aliases index)

unfoldable pub alias_to_canonical : Dictionary String
unfolding invert common_synonyms
alias_to_canonical = invert common_synonyms []

abbrev or_key : String → Option String → String
or_key key none = key
or_key key (some canonical) = canonical

-- The body of the loop over the fields: a canonical name that is taken is not overwritten.
unfoldable pub put_field : (canonical key : String) → Value → Dict → Dict
unfolding insert lookup
put_field canonical key value result =
    if has_key (lookup canonical result)
    then (if has_key (lookup key result) then result else insert key value result)
    else insert canonical value result

-- `lower` is Python's.
module _ (lower : String → String) where
  unfoldable pub canonical_name : (key : String) → String
  unfolding alias_to_canonical lookup
  canonical_name key = or_key key (lookup (lower key) alias_to_canonical)

  unfoldable pub detect_fields : Dict → (result : Dict) → Dict
  unfolding put_field
  detect_fields [] result = result
  detect_fields ((key, value) ∷ rest) result =
      detect_fields rest (put_field (canonical_name key) key value result)

  unfoldable pub auto_detect_fields : (raw_data : Dict) → Dict
  unfolding detect_fields
  auto_detect_fields raw_data = detect_fields raw_data []

-- `dict(base)` and `update`
unfoldable pub merge_mappings : (base override : Dictionary String) → Dictionary String
unfolding insert
merge_mappings base [] = base
merge_mappings base ((source, target) ∷ override) =
    merge_mappings (insert source target base) override
