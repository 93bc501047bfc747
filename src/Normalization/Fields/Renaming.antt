-- ===== src/Normalization/Fields/Renaming.antt =====
-- backend/normalization/mappers/field_mapper.py: what becomes of the fields of a record.
use mathlib.Core.List.{append-nil, append_assoc}
use osint_platform_core.Base.{
  String, Bool, false, none, [], ◌∷◌, ◌++◌, str_eq, str_eq_comm, str_eq_iff, map, All, All-map,
  All-append, Bool-cases, inl, inr, ◌≡◌, refl, sym, ◌∙◌, ap,
}
use osint_platform_core.Base.Apart.{AreApart}
use osint_platform_core.Base.Rows.{or_else}
use osint_platform_core.Base.Json.{Value, Dictionary, lookup, insert, lookup-insert}
use osint_platform_core.Ingestion.Records.{Dict}
use osint_platform_core.Normalization.Fields.{
  canonical_name, put_field, detect_fields, auto_detect_fields, merge_mappings,
}

abbrev Missing {ℓ} : {V : Type ℓ} → String → Dictionary V → Type 0
Missing name fields = All (λ f. str_eq f.0 name ≡ false) fields

lookup-Missing :
    {V : Type 0} (name : String) (fields : Dictionary V)
    → Missing name fields
    → lookup name fields ≡ none
unfolding lookup
lookup-Missing name [] h = refl
lookup-Missing name (f ∷ fields) h = rw h.0 (lookup-Missing name fields h.1)

insert-Missing :
    {V : Type 0} (name : String) (value : V) (fields : Dictionary V)
    → Missing name fields
    → insert name value fields ≡ fields ++ (name, value) ∷ []
unfolding insert
insert-Missing name value [] h = refl
insert-Missing name value (f ∷ fields) h =
    rw h.0 (ap (λ fs. f ∷ fs) (insert-Missing name value fields h.1))

put_field-Missing :
    (canonical key : String) (value : Value) (acc : Dict)
    → Missing canonical acc
    → put_field canonical key value acc ≡ acc ++ (canonical, value) ∷ []
unfolding put_field
put_field-Missing canonical key value acc h =
    rw (lookup-Missing canonical acc h) (insert-Missing canonical value acc h)

module _ (lower : String → String) where
  abbrev pub renamed : Dict → Dict
  renamed fields = map (λ f. (canonical_name lower f.0, f.1)) fields

  -- Two fields with one canonical name.
  abbrev pub clash : (String × Value) → (String × Value) → Bool
  clash f g = str_eq (canonical_name lower f.0) (canonical_name lower g.0)

  Missing-snoc :
      (name : String) (value : Value) (acc rest : Dict)
      → All (λ f. Missing (canonical_name lower f.0) acc) rest
      → All (λ f. str_eq name (canonical_name lower f.0) ≡ false) rest
      → All (λ f. Missing (canonical_name lower f.0) (acc ++ (name, value) ∷ [])) rest
  Missing-snoc name value acc [] h k = tt
  Missing-snoc name value acc (f ∷ rest) h k = (
    All-append _ acc ((name, value) ∷ []) h.0 (k.0, tt),
    Missing-snoc name value acc rest h.1 k.1,
  )

  detect_fields-renamed :
      (rest acc : Dict)
      → AreApart clash rest
      → All (λ f. Missing (canonical_name lower f.0) acc) rest
      → detect_fields lower rest acc ≡ acc ++ renamed rest
  unfolding detect_fields
  detect_fields-renamed [] acc a h = sym (append-nil acc)
  detect_fields-renamed ((key, value) ∷ rest) acc a h =
      let name = canonical_name lower key in
      let next = put_field-Missing name key value acc h.0 in
      ap (λ r. detect_fields lower rest r) next
      ∙ detect_fields-renamed rest (acc ++ (name, value) ∷ []) a.1
          (Missing-snoc name value acc rest h.1 a.0)
      ∙ append_assoc acc ((name, value) ∷ []) (renamed rest)

  nothing_there : (rest : Dict) → All (λ f. Missing {V = Value} (canonical_name lower f.0) []) rest
  nothing_there [] = tt
  nothing_there (f ∷ rest) = (tt, nothing_there rest)

  -- A record of which no two fields have one canonical name is renamed field by field: every value is
  -- kept, in the same order.
  pub auto_detect_fields-renamed :
      (raw_data : Dict)
      → AreApart clash raw_data
      → auto_detect_fields lower raw_data ≡ renamed raw_data
  unfolding auto_detect_fields
  auto_detect_fields-renamed raw_data a =
      detect_fields-renamed raw_data [] a (nothing_there raw_data)

-- A key of the override, which has no key twice, gives its target there, and any other key that of the
-- base.
pub lookup-merge_mappings :
    (key : String) (base override : Dictionary String)
    → AreApart (λ (f g : String × String). str_eq f.0 g.0) override
    → lookup key (merge_mappings base override) ≡ or_else (lookup key override) (lookup key base)
unfolding merge_mappings lookup
lookup-merge_mappings key base [] a = refl
lookup-merge_mappings key base ((source, target) ∷ override) a =
    lookup-merge_mappings key (insert source target base) override a.1
    ∙ elim (Bool-cases (str_eq source key)) [
      | inl same ↦
          let e : source ≡ key = (str_eq_iff source key).0 same in
          let absent : lookup key override ≡ none = lookup-Missing key override (
            All-map override (λ f k. str_eq_comm f.0 key ∙ ap (λ s. str_eq s f.0) (sym e) ∙ k)
              a.0) in
          rw (lookup-insert source key target base, absent, same) refl
      | inr other ↦ rw (lookup-insert source key target base, other) refl
    ]
