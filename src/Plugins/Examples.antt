-- ===== src/Plugins/Examples.antt =====
-- The theorems about backend/plugins/ at concrete inputs.
use osint_platform_core.Base.{true, false, [], ◌∷◌, ◌++◌, ◌≡◌, refl}
use osint_platform_core.Plugins.Registry.{Plugin, Registry}
use osint_platform_core.Plugins.Loader.{PluginClass, Platform, load_all_plugins}
use osint_platform_core.Plugins.Loader.Isolation.{healthy, mounted, named, load_all_plugins_lem}

abbrev cyber : Plugin
cyber = record { name = "cyber_osint"; version = "1.0.0" }

abbrev footprint : Plugin
footprint = record { name = "digital_footprint"; version = "1.0.0" }

abbrev registered : Registry
registered = ("cyber_osint", cyber) ∷ []

abbrev broken : PluginClass
broken = record {
  imports = true;
  constructs = true;
  initializes = true;
  mounts = false;
  routes = "/misinformation/status" ∷ [];
  plugin = record { name = "misinformation"; version = "1.0.0" };
}

abbrev working : PluginClass
working = record {
  imports = true;
  constructs = true;
  initializes = true;
  mounts = true;
  routes = "/footprint" ∷ [];
  plugin = footprint;
}

abbrev platform : Platform
platform = record { routers = "cyber_osint" ∷ []; registry = registered }

load_all_plugins_lem_example : load_all_plugins (broken ∷ working ∷ []) platform ≡ record {
  routers = platform.routers ++ mounted (broken ∷ working ∷ []);
  registry = platform.registry ++ named (healthy (broken ∷ working ∷ []));
}
load_all_plugins_lem_example =
    load_all_plugins_lem (broken ∷ working ∷ []) platform ((refl, tt), tt)
