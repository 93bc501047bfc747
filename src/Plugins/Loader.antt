-- ===== src/Plugins/Loader.antt =====
-- backend/plugins/loader.py: the classes are imported first, each on its own; then every imported
-- class is constructed, initialised, mounted and registered, and a failure skips that plugin only.
pub mod Isolation
use osint_platform_core.Base.{
  String, Bool, true, false, List, [], ◌∷◌, ◌++◌, keep, if◌then◌else◌, ◌&&◌,
}
use osint_platform_core.Plugins.Registry.{Plugin, Registry, register}

-- How the parts of one plugin class behave: whether each returns or raises, and the routes that
-- `register_routes` mounts before that.
pub record PluginClass : Type 0 where
  pub imports : Bool
  pub constructs : Bool
  pub initializes : Bool
  pub mounts : Bool
  pub routes : List String
  pub plugin : Plugin

-- What the loader writes: the routers of the application, and the registry.
pub record Platform : Type 0 where
  pub routers : List String
  pub registry : Registry

abbrev mount : PluginClass → Platform → Platform
mount c s = record s { routers = s.routers ++ c.routes }

abbrev enter : Plugin → Platform → Platform
enter p s = record s { registry = register p s.registry }

-- The body of the loop: `try` … `except` around the four calls. What was mounted stays.
pub load_plugin : PluginClass → Platform → Platform
load_plugin c s =
    if c.constructs
    then if c.initializes then if c.mounts then enter c.plugin (mount c s) else mount c s else s
    else s

load_classes : List PluginClass → Platform → Platform
load_classes [] s = s
load_classes (c ∷ cs) s = load_classes cs (load_plugin c s)

unfoldable pub load_all_plugins : List PluginClass → Platform → Platform
unfolding load_classes load_plugin
load_all_plugins classes s = load_classes (keep (λ c. c.imports) classes) s
