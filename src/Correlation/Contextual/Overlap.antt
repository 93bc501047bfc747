-- ===== src/Correlation/Contextual/Overlap.antt =====
-- backend/correlation/analyzers/contextual_analyzer.py: the overlap of attributes is a score, and does
-- not depend on the order of the entities.
use native.Mathlib.Nat.{mul-le-mul_right}
use osint_platform_core.Base.{
  ℕ, suc, ◌+◌, ◌*◌, ◌≤◌, ◌<◌, String, Bool, true, false, not, List, [], ◌∷◌, keep, ◌==◌, keep-true,
  length, length-append, length-keep-le, str_eq, str_eq_iff, str_eq_comm, str_in, All, Bool-cases,
  inl, inr, if◌then◌else◌, ◌&&◌, ◌||◌, ◌≡◌, refl, sym, ◌∙◌, ap, arith, is_nil,
}
use osint_platform_core.Base.Apart.{AreApart}
use osint_platform_core.Base.Json.{Value}
use osint_platform_core.Ingestion.Records.{Dict}
use osint_platform_core.Correlation.Temporal.{Fraction, zero_score}
use osint_platform_core.Correlation.Contextual.{
  keys, common_keys, all_keys, matching_values, compute_attribute_overlap,
}

length-keep-not {ℓ} :
    {A : Type ℓ} (p : A → Bool) (xs : List A)
    → length (keep p xs) + length (keep (λ x. not (p x)) xs) ≡ length xs
length-keep-not p [] = omega arith
length-keep-not p (x ∷ xs) = ground (arith, length-keep-not p xs)

abbrev shared : (p : String → Bool) → (xs ys : List String) → List String
shared p xs ys = keep (λ y. str_in y xs && p y) ys

shared_nil : (p : String → Bool) (ys : List String) → length (shared p [] ys) ≡ 0
shared_nil p [] = refl
shared_nil p (y ∷ ys) = shared_nil p ys

-- A key more that is not among those that were there.
shared_cons :
    (p : String → Bool) (x : String) (xs ys : List String)
    → All (λ y. str_eq x y ≡ false) ys
    → length (shared p (x ∷ xs) ys) ≡ length (shared p xs ys)
shared_cons p x xs [] h = refl
shared_cons p x xs (y ∷ ys) h = ground (arith, shared_cons p x xs ys h.1, h.0)

not_in : (x : String) (ys : List String) → All (λ y. str_eq x y ≡ false) ys → str_in x ys ≡ false
not_in x [] h = refl
not_in x (y ∷ ys) h = ground (arith, not_in x ys h.1, h.0, str_eq_comm x y)

shared_one :
    (p : String → Bool) (x : String) (xs ys : List String)
    → str_in x xs ≡ false
    → AreApart str_eq ys
    → length (shared p (x ∷ xs) ys)
      ≡ (if str_in x ys && p x then suc (length (shared p xs ys)) else length (shared p xs ys))
shared_one p x xs [] new a = refl
shared_one p x xs (y ∷ ys) new a = elim (Bool-cases (str_eq x y)) [
  | inl same ↦
      let e : x ≡ y = (str_eq_iff x y).0 same in
      let tested : p x ≡ p y = ap p e in
      let fresh : str_in y xs ≡ false = ap (λ s. str_in s xs) (sym e) ∙ new in
      let back : str_eq y x ≡ true = str_eq_comm y x ∙ same in
      let others = shared_cons p x xs ys (rw (← e) at a.0) in
      ground (arith, tested, fresh, back, others, same)
  | inr other ↦
      let back : str_eq y x ≡ false = str_eq_comm y x ∙ other in
      ground (arith, shared_one p x xs ys new a.1, other, back)
]

-- Two lists without repetitions share as many keys, whichever is asked.
shared_comm :
    (p : String → Bool) (xs ys : List String)
    → AreApart str_eq xs
    → AreApart str_eq ys
    → length (shared p xs ys) ≡ length (shared p ys xs)
shared_comm p [] ys a d = shared_nil p ys
shared_comm p (x ∷ xs) ys a d =
    shared_one p x xs ys (not_in x xs a.0) d ∙ ground (arith, shared_comm p xs ys a.1 d)

shared-common_keys :
    (p : String → Bool) (ks ls : List String)
    → length (keep p (common_keys ks ls)) ≡ length (shared p ls ks)
shared-common_keys p [] ls = refl
shared-common_keys p (k ∷ ks) ls = elim (Bool-cases (str_in k ls)) [
  | inl there ↦ rw there (ground (arith, shared-common_keys p ks ls))
  | inr missing ↦ rw missing (shared-common_keys p ks ls)
]

shared_same :
    (p q : String → Bool) (xs ys : List String)
    → ((y : String) → p y ≡ q y)
    → length (shared p xs ys) ≡ length (shared q xs ys)
shared_same p q xs [] h = refl
shared_same p q xs (y ∷ ys) h = ground (arith, shared_same p q xs ys h, h y)

-- The common keys that pass a test, whichever keys are asked first.
common_keys_comm :
    (p q : String → Bool) (ks ls : List String)
    → ((k : String) → p k ≡ q k)
    → AreApart str_eq ks
    → AreApart str_eq ls
    → length (keep p (common_keys ks ls)) ≡ length (keep q (common_keys ls ks))
common_keys_comm p q ks ls h a d =
    shared-common_keys p ks ls
    ∙ shared_comm p ls ks d a
    ∙ shared_same p q ks ls h
    ∙ sym (shared-common_keys q ls ks)

length-common_keys :
    (ks ls : List String)
    → AreApart str_eq ks
    → AreApart str_eq ls
    → length (common_keys ks ls) ≡ length (common_keys ls ks)
length-common_keys ks ls a d =
    ap length (sym (keep-true (common_keys ks ls)))
    ∙ common_keys_comm (λ k. true) (λ k. true) ks ls (λ k. refl) a d
    ∙ ap length (keep-true (common_keys ls ks))

length-all_keys :
    (ks ls : List String)
    → length (all_keys ks ls) + length (common_keys ls ks) ≡ length ks + length ls
length-all_keys ks ls =
    let parts = length-keep-not (λ k. str_in k ks) ls in
    rw (length-append ks (keep (λ k. not (str_in k ks)) ls)) (omega (arith, parts))

-- The score from its counts.
abbrev overlap_of : (empty : Bool) → (c a m : ℕ) → Fraction
overlap_of empty c a m =
    if empty
    then zero_score
    else if c == 0
    then zero_score
    else record { part = c * c + m * a; whole = 2 * (a * c) }

is_nil-length {ℓ} : {A : Type ℓ} (xs : List A) → is_nil xs ≡ (length xs == 0)
is_nil-length [] = refl
is_nil-length (x ∷ xs) = ground arith

overlap_of-bounds :
    (empty : Bool) (c a m : ℕ)
    → c ≤ a
    → m ≤ c
    → ((overlap_of empty c a m).part ≤ (overlap_of empty c a m).whole)
      × (0 < (overlap_of empty c a m).whole)
overlap_of-bounds true c a m h k = (omega arith, omega arith)
overlap_of-bounds false c a m h k = elim (Bool-cases (c == 0)) [
  | inl nothing ↦ rw nothing (omega arith, omega arith)
  | inr some_key ↦
      let positive : 1 ≤ c = ground (arith, some_key) in
      let first : c * c ≤ a * c = mul-le-mul_right c h in
      let second : m * a ≤ c * a = mul-le-mul_right a k in
      let area : 1 * c ≤ a * c = mul-le-mul_right c (omega arith) in
      rw some_key (omega (arith, first, second), omega (arith, area, positive))
]

module _ (to_str : Value → String) where
  abbrev matches : (e1_attrs e2_attrs : Dict) → ℕ
  matches e1_attrs e2_attrs =
      length
        (matching_values to_str e1_attrs e2_attrs (common_keys (keys e1_attrs) (keys e2_attrs)))

  overlap_lem :
      (e1_attrs e2_attrs : Dict)
      → compute_attribute_overlap to_str e1_attrs e2_attrs
        ≡ overlap_of
            (is_nil e1_attrs || is_nil e2_attrs)
            (length (common_keys (keys e1_attrs) (keys e2_attrs)))
            (length (all_keys (keys e1_attrs) (keys e2_attrs)))
            (matches e1_attrs e2_attrs)
  unfolding compute_attribute_overlap
  overlap_lem e1_attrs e2_attrs =
      rw (is_nil-length (common_keys (keys e1_attrs) (keys e2_attrs))) refl

  matches_comm :
      (e1_attrs e2_attrs : Dict)
      → AreApart str_eq (keys e1_attrs)
      → AreApart str_eq (keys e2_attrs)
      → matches e1_attrs e2_attrs ≡ matches e2_attrs e1_attrs
  unfolding matching_values
  matches_comm e1_attrs e2_attrs a d =
      common_keys_comm _ _ (keys e1_attrs) (keys e2_attrs) (λ k. str_eq_comm _ _) a d

  matches-le :
      (e1_attrs e2_attrs : Dict)
      → matches e1_attrs e2_attrs ≤ length (common_keys (keys e1_attrs) (keys e2_attrs))
  unfolding matching_values
  matches-le e1_attrs e2_attrs = length-keep-le _ (common_keys (keys e1_attrs) (keys e2_attrs))

  -- The overlap of two objects, which have no key twice, is a fraction from 0 to 1, and that of the
  -- same objects in the other order.
  pub compute_attribute_overlap-bounds :
      (e1_attrs e2_attrs : Dict)
      → AreApart str_eq (keys e1_attrs)
      → AreApart str_eq (keys e2_attrs)
      → let s = compute_attribute_overlap to_str e1_attrs e2_attrs in
        (s.part ≤ s.whole)
        × (0 < s.whole)
        × (s ≡ compute_attribute_overlap to_str e2_attrs e1_attrs)
  compute_attribute_overlap-bounds e1_attrs e2_attrs a d =
      let ks = keys e1_attrs in
      let ls = keys e2_attrs in
      let same = length-common_keys ks ls a d in
      let total : length (all_keys ks ls) ≡ length (all_keys ls ks) =
        omega (arith, same, length-all_keys ks ls, length-all_keys ls ks) in
      let few : length (common_keys ks ls) ≤ length (all_keys ks ls) =
        rw (length-append ks (keep (λ k. not (str_in k ks)) ls))
          (omega (arith, length-keep-le (λ k. str_in k ls) ks)) in
      let (below, positive) =
        overlap_of-bounds (is_nil e1_attrs || is_nil e2_attrs) (length (common_keys ks ls))
          (length (all_keys ks ls)) (matches e1_attrs e2_attrs) few
          (matches-le e1_attrs e2_attrs) in
      let swapped : (is_nil e1_attrs || is_nil e2_attrs) ≡ (is_nil e2_attrs || is_nil e1_attrs) =
        ground arith in
      (
        rw (overlap_lem e1_attrs e2_attrs) below,
        rw (overlap_lem e1_attrs e2_attrs) positive,
        overlap_lem e1_attrs e2_attrs
            ∙ rw (swapped, same, total, matches_comm e1_attrs e2_attrs a d) refl
            ∙ sym (overlap_lem e2_attrs e1_attrs),
      )
