-- ===== src/Normalization/Fields/Examples.antt =====
-- The field mapper at concrete inputs.
use osint_platform_core.Base.{String, [], ◌∷◌, ◌≡◌, refl}
use osint_platform_core.Base.Apart.{AreApart}
use osint_platform_core.Base.Json.{text, Dictionary}
use osint_platform_core.Ingestion.Records.{Dict}
use osint_platform_core.Normalization.Fields.{canonical_name, auto_detect_fields}
use osint_platform_core.Normalization.Fields.Renaming.{renamed, clash, auto_detect_fields-renamed}

abbrev same : String → String
same s = s

-- A canonical name that is an alias of an earlier one is renamed.
name : canonical_name same "name" ≡ "full_name"
unfolding canonical_name
name = refl

abbrev record' : Dict
record' = ("src_ip", text "10.0.0.1") ∷ ("town", text "Oslo") ∷ []

apart : AreApart (clash same) record'
unfolding canonical_name
apart = ((refl, tt), (tt, tt))

auto_detect_fields-renamed_example : auto_detect_fields same record' ≡ renamed same record'
auto_detect_fields-renamed_example = auto_detect_fields-renamed same record' apart

abbrev base : Dictionary String
base = ("tel", "phone") ∷ ("www", "url") ∷ []

abbrev override : Dictionary String
override = ("tel", "phone_number") ∷ []
