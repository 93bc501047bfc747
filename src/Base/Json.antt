-- ===== src/Base/Json.antt =====
-- A decoded JSON value, and an object as the list of its fields in order. A number is its text and
-- whether it is zero.
use Prim.Native.String.{String}
use mathlib.Core.Path.{◌≡◌, refl}
use mathlib.Core.Bool.{Bool, true, false, not}
use mathlib.Core.Option.{Option, none, some}
use mathlib.Core.List.{List, [], ◌∷◌}
use native.Mathlib.Omega.{arith}
use osint_platform_core.Base.Tests.{if◌then◌else◌, str_eq, str_eq_iff}
use osint_platform_core.Base.Text.{is_empty}

mutual
  pub data Value : Type 0 where
    null : Value
    bool : Bool → Value
    number : (text : String) → (zero : Bool) → Value
    text : String → Value
    array : Items → Value
    object : Fields → Value

  pub data Fields : Type 0 where
    end : Fields
    field : String → Value → Fields → Fields

  pub data Items : Type 0 where
    nil : Items
    cons : Value → Items → Items

-- `bool(value)`
abbrev pub truthy : Value → Bool
truthy null = false
truthy (bool b) = b
truthy (number t zero) = not zero
truthy (text s) = not (is_empty s)
truthy (array nil) = false
truthy (array (cons v vs)) = true
truthy (object end) = false
truthy (object (field k v fs)) = true

-- A dictionary of fields, in order of insertion: a key that is there keeps its place.
abbrev pub Dictionary {ℓ} : Type ℓ → Type ℓ
Dictionary V = List (String × V)

module _ {ℓ} {V : Type ℓ} where
  unfoldable pub lookup : (key : String) → Dictionary V → Option V
  lookup key [] = none
  lookup key ((name, value) ∷ rest) = if str_eq name key then some value else lookup key rest

  unfoldable pub insert : (key : String) → (value : V) → Dictionary V → Dictionary V
  insert key value [] = (key, value) ∷ []
  insert key value ((name, old) ∷ rest) =
      if str_eq name key then (name, value) ∷ rest else (name, old) ∷ insert key value rest

  pub lookup-insert :
      (key other : String) (value : V) (fields : Dictionary V)
      → lookup other (insert key value fields)
        ≡ (if str_eq key other then some value else lookup other fields)
  unfolding lookup insert
  lookup-insert key other value [] = refl
  lookup-insert key other value ((name, old) ∷ rest) = ground (
    arith,
    lookup-insert key other value rest,
    str_eq_iff key other,
    str_eq_iff name key,
    str_eq_iff name other,
  )
