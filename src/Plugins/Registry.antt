-- ===== src/Plugins/Registry.antt =====
-- backend/plugins/registry.py: a dictionary from names to plugins, in order of insertion.
pub mod Dictionary
use osint_platform_core.Base.{
  String, Option, none, some, List, [], ◌∷◌, map, keep, not, str_eq, if◌then◌else◌,
}

-- What the registry reads of a plugin: its name; `version` is only logged.
pub record Plugin : Type 0 where
  pub name : String
  pub version : String

abbrev pub Registry : Type 0
Registry = List (String × Plugin)

-- `_plugins[name] = plugin`: a key that is there keeps its place.
insert : String → Plugin → Registry → Registry
insert k p [] = (k, p) ∷ []
insert k p ((j, q) ∷ r) = if str_eq j k then (j, p) ∷ r else (j, q) ∷ insert k p r

lookup : String → Registry → Option Plugin
lookup k [] = none
lookup k ((j, q) ∷ r) = if str_eq j k then some q else lookup k r

-- `_plugins.pop(name, None)`
pop : String → Registry → Registry
pop k r = keep (λ e. not (str_eq e.0 k)) r

unfoldable pub register : Plugin → Registry → Registry
unfolding insert
register plugin r = insert plugin.name plugin r

unfoldable pub unregister : String → Registry → Registry
unfolding pop
unregister name r = pop name r

unfoldable pub get : String → Registry → Option Plugin
unfolding lookup
get name r = lookup name r

unfoldable pub list_plugins : Registry → List String
list_plugins r = map (λ e. e.0) r

unfoldable pub list_all : Registry → List Plugin
list_all r = map (λ e. e.1) r
