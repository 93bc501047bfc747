-- ===== src/Storage/GraphSync/Labels.antt =====
-- backend/storage/database/graph/graph_sync.py, `_sanitise_label`: what goes into the text of a query.
use osint_platform_core.Base.{
  String, Bool, true, false, not, Bool-cases, inl, inr, ◌&&◌, ◌≡◌, refl, ap, arith,
}
use osint_platform_core.Base.Text.{is_empty}
use osint_platform_core.Storage.GraphSync.{is_word, substituted, starts_with_digit, sanitise_label}

abbrev pub all_word : String → Bool
all_word String.[] = true
all_word (String.◌∷◌ c s) = is_word c && all_word s

-- A label that Cypher reads as one name: not empty, without a digit in front, and of letters, digits
-- and underscores only.
abbrev pub is_label : String → Bool
is_label s = not (is_empty s) && (not (starts_with_digit s) && all_word s)

substituted-all_word : (s : String) → all_word (substituted s) ≡ true
unfolding substituted
substituted-all_word String.[] = refl
substituted-all_word (String.◌∷◌ c s) = elim (Bool-cases (is_word c)) [
  | inl word ↦ rw word (rw word (substituted-all_word s))
  | inr other ↦ rw other (substituted-all_word s)
]

substituted_same : (s : String) → all_word s ≡ true → substituted s ≡ s
unfolding substituted
substituted_same String.[] h = refl
substituted_same (String.◌∷◌ c s) h = elim (Bool-cases (is_word c)) [
  | inl word ↦ rw word (ap (λ t. String.◌∷◌ c t) (substituted_same s (rw word at h)))
  | inr other ↦ let k : false ≡ true = rw other at h in cc
]

is_label-sanitise_label : (s : String) → is_label (sanitise_label s) ≡ true
unfolding sanitise_label
is_label-sanitise_label s = elim (Bool-cases (starts_with_digit (substituted s))) [
  | inl digit ↦ rw digit (substituted-all_word s)
  | inr other ↦ rw other (elim (Bool-cases (is_empty (substituted s))) [
    | inl empty ↦ rw empty refl
    | inr some_text ↦ rw some_text (rw (some_text, other, substituted-all_word s) refl)
  ])
]

sanitise_label_same : (s : String) → is_label s ≡ true → sanitise_label s ≡ s
unfolding sanitise_label
sanitise_label_same s h =
    let same = substituted_same s (ground (arith, h)) in
    let other : starts_with_digit s ≡ false = ground (arith, h) in
    let some_text : is_empty s ≡ false = ground (arith, h) in rw same (rw other (rw some_text refl))

-- Whatever the type of an entity or a relationship is, the label that is put into the text of the
-- query is one name, so that nothing else can be written into the query; and a name that was made so
-- is not changed any more.
pub sanitise_label-is_label :
    (s : String)
    → (is_label (sanitise_label s) ≡ true) × (sanitise_label (sanitise_label s) ≡ sanitise_label s)
sanitise_label-is_label s =
    let label = is_label-sanitise_label s in (label, sanitise_label_same (sanitise_label s) label)
