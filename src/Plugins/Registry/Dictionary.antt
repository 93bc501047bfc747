-- ===== src/Plugins/Registry/Dictionary.antt =====
-- backend/plugins/registry.py: the registry as a finite map from names to plugins.
use osint_platform_core.Base.{
  String, false, none, some, [], ◌∷◌, ◌≡◌, refl, arith, ◌++◌, ap, str_eq, str_eq_iff, str_eq_comm,
  sym, ◌∙◌, All, if◌then◌else◌, Bool-cases, inl, inr,
}
use osint_platform_core.Plugins.Registry.{
  Plugin, Registry, insert, lookup, pop, register, unregister, get,
}

get-insert :
    (k j : String) (p : Plugin) (r : Registry)
    → lookup j (insert k p r) ≡ (if str_eq k j then some p else lookup j r)
unfolding insert lookup
get-insert k j p [] = refl
get-insert k j p ((i, q) ∷ r) =
    ground (arith, get-insert k j p r, str_eq_iff k j, str_eq_iff i k, str_eq_iff i j)

get-pop :
    (k j : String) (r : Registry) → lookup j (pop k r) ≡ (if str_eq k j then none else lookup j r)
unfolding pop lookup
get-pop k j [] = ground arith
get-pop k j ((i, q) ∷ r) =
    ground (arith, get-pop k j r, str_eq_iff i k, str_eq_iff i j, str_eq_iff k j)

-- Registering a plugin makes it the one that its name gives, unregistering a name makes it give
-- nothing, and neither changes what any other name gives.
pub get-register-unregister :
    (plugin : Plugin) (name other : String) (r : Registry)
    → (get other (register plugin r)
        ≡ (if str_eq plugin.name other then some plugin else get other r))
      × (get other (unregister name r) ≡ (if str_eq name other then none else get other r))
unfolding get register unregister
get-register-unregister plugin name other r =
    (get-insert plugin.name other plugin r, get-pop name other r)

-- Every plugin stands under its own name, and no name stands twice.
abbrev pub IsFresh : String → Registry → Type 0
IsFresh k r = All (λ e. str_eq e.0 k ≡ false) r

abbrev pub IsRegistry : Registry → Type 0
IsRegistry [] = Unit
IsRegistry ((k, p) ∷ r) = (p.name ≡ k) × IsFresh k r × IsRegistry r

IsFresh-insert :
    (k j : String) (p : Plugin) (r : Registry)
    → str_eq j k ≡ false
    → IsFresh k r
    → IsFresh k (insert j p r)
unfolding insert
IsFresh-insert k j p [] h f = (h, tt)
IsFresh-insert k j p ((i, q) ∷ r) h f = elim (Bool-cases (str_eq i j)) [
  | inl same ↦ rw same f
  | inr other ↦ rw other (f.0, IsFresh-insert k j p r h f.1)
]

insert-IsRegistry : (p : Plugin) (r : Registry) → IsRegistry r → IsRegistry (insert p.name p r)
unfolding insert
insert-IsRegistry p [] h = (refl, tt, tt)
insert-IsRegistry p ((i, q) ∷ r) h = elim (Bool-cases (str_eq i p.name)) [
  | inl same ↦ rw same (sym ((str_eq_iff i p.name).0 same), h.1, h.2)
  | inr other ↦ rw other (
    h.0,
    IsFresh-insert i p.name p r (str_eq_comm p.name i ∙ other) h.1,
    insert-IsRegistry p r h.2,
  )
]

IsFresh-pop : (k j : String) (r : Registry) → IsFresh k r → IsFresh k (pop j r)
unfolding pop
IsFresh-pop k j [] f = tt
IsFresh-pop k j ((i, q) ∷ r) f = elim (Bool-cases (str_eq i j)) [
  | inl same ↦ rw same (IsFresh-pop k j r f.1)
  | inr other ↦ rw other (f.0, IsFresh-pop k j r f.1)
]

pop-IsRegistry : (k : String) (r : Registry) → IsRegistry r → IsRegistry (pop k r)
unfolding pop
pop-IsRegistry k [] h = tt
pop-IsRegistry k ((i, q) ∷ r) h = elim (Bool-cases (str_eq i k)) [
  | inl same ↦ rw same (pop-IsRegistry k r h.2)
  | inr other ↦ rw other (h.0, IsFresh-pop i k r h.1, pop-IsRegistry k r h.2)
]

-- Registering and unregistering keep the registry in order: every plugin stands under its own
-- name, and no name stands twice.
pub operations-IsRegistry :
    (plugin : Plugin) (name : String) (r : Registry)
    → IsRegistry r
    → IsRegistry (register plugin r) × IsRegistry (unregister name r)
unfolding register unregister
operations-IsRegistry plugin name r h = (insert-IsRegistry plugin r h, pop-IsRegistry name r h)

-- A new name goes behind the others.
pub register-append :
    (p : Plugin) (r : Registry)
    → All (λ e. str_eq e.0 p.name ≡ false) r
    → register p r ≡ r ++ (p.name, p) ∷ []
unfolding register insert
register-append p [] h = refl
register-append p ((i, q) ∷ r) h = rw h.0 (ap (λ s. (i, q) ∷ s) (register-append p r h.1))
