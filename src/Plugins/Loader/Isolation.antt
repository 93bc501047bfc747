-- ===== src/Plugins/Loader/Isolation.antt =====
-- backend/plugins/loader.py: the loader over classes of which some fail.
use osint_platform_core.Base.{
  String, Bool, false, List, [], ◌∷◌, ◌++◌, ◌≡◌, refl, map, keep, All, Bool-cases, inl, inr, ◌&&◌,
  str_eq, if◌then◌else◌,
}
use mathlib.Core.List.{append_assoc, append-nil}
use osint_platform_core.Plugins.Registry.{Plugin, Registry, register}
use osint_platform_core.Plugins.Registry.Dictionary.{register-append}
use osint_platform_core.Plugins.Loader.{PluginClass, Platform, load_all_plugins}

abbrev pub loads : PluginClass → Bool
loads c = c.imports && (c.constructs && (c.initializes && c.mounts))

abbrev pub healthy : List PluginClass → List Plugin
healthy cs = map (λ c. c.plugin) (keep loads cs)

-- Names that differ from one another and from those in the registry.
abbrev pub AreDistinct : List Plugin → Registry → Type 0
AreDistinct [] r = Unit
AreDistinct (p ∷ ps) r =
    All (λ e. str_eq e.0 p.name ≡ false) r × AreDistinct ps (r ++ (p.name, p) ∷ [])

abbrev pub named : List Plugin → Registry
named ps = map (λ p. (p.name, p)) ps

-- The routes of the plugins that come to `register_routes`, which may raise after it mounted some.
abbrev mounting : PluginClass → List String
mounting c = if c.imports && (c.constructs && c.initializes) then c.routes else []

unfoldable pub mounted : List PluginClass → List String
mounted [] = []
mounted (c ∷ cs) = mounting c ++ mounted cs

abbrev loaded : PluginClass → Platform → Platform
loaded c s = record {
  routers = s.routers ++ mounting c;
  registry = if loads c then register c.plugin s.registry else s.registry;
}

load-none : (s : Platform) → load_all_plugins [] s ≡ s
unfolding load_all_plugins
load-none s = refl

load-step :
    (c : PluginClass) (cs : List PluginClass) (s : Platform)
    → load_all_plugins (c ∷ cs) s ≡ load_all_plugins cs (loaded c s)
unfolding load_all_plugins
load-step c cs s = elim (Bool-cases c.imports) [
  | inr missing ↦ rw missing (rw (append-nil s.routers) refl)
  | inl imports ↦ elim (Bool-cases c.constructs) [
    | inr fails ↦ rw (imports, fails) (rw (append-nil s.routers) refl)
    | inl constructs ↦ elim (Bool-cases c.initializes) [
      | inr fails ↦ rw (imports, constructs, fails) (rw (append-nil s.routers) refl)
      | inl initializes ↦ elim (Bool-cases c.mounts) [
        | inr fails ↦ rw (imports, constructs, initializes, fails) refl
        | inl mounts ↦ rw (imports, constructs, initializes, mounts) refl
      ]
    ]
  ]
]

-- After the loader, exactly the plugins all of whose parts succeed are registered, in the order of
-- the classes, behind what was there before, provided that their names differ from each other and
-- from the names registered before. Mounted are, in the same order, the routes of the plugins that
-- come to `register_routes`: all of a plugin that succeeds, and what one that raises has mounted.
pub load_all_plugins_lem :
    (classes : List PluginClass) (s : Platform)
    → AreDistinct (healthy classes) s.registry
    → load_all_plugins classes s ≡ record {
      routers = s.routers ++ mounted classes;
      registry = s.registry ++ named (healthy classes);
    }
unfolding mounted
load_all_plugins_lem [] s h = rw (load-none s) (rw (append-nil, append-nil))
load_all_plugins_lem (c ∷ cs) s h = elim (Bool-cases (loads c)) [
  | inl works ↦
      let d = rw works at h in
      let same = register-append c.plugin s.registry d.0 in
      rw (load-step c cs s, works)
        (rw
          (load_all_plugins_lem cs
            (record { routers = s.routers ++ mounting c; registry = register c.plugin s.registry })
            (rw same d.1))
          (rw (same, append_assoc s.routers (mounting c) (mounted cs)) (simp append_assoc)))
  | inr fails ↦
      rw (load-step c cs s, fails)
        (rw
          (load_all_plugins_lem cs (record s { routers = s.routers ++ mounting c }) (rw fails at h))
          (rw (append_assoc s.routers (mounting c) (mounted cs)) refl))
]
