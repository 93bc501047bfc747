-- ===== src/Base/Apart.antt =====
-- Rows of which no two are in the same class: the unique columns of a table, or what a handler keeps
-- unique by looking before it inserts.
use mathlib.Core.Path.{◌≡◌, refl, ap, ◌∙◌}
use mathlib.Core.Logic.{◌⊎◌, inl, inr}
use mathlib.Core.Bool.{Bool, true, false}
use Prim.Native.Nat.{ℕ, zero, suc}
use mathlib.Core.List.{List, [], ◌∷◌, ◌++◌, map}
use osint_platform_core.Base.Tests.{if◌then◌else◌, Bool-cases}
use osint_platform_core.Base.Lists.{All, All-append, All-keep, keep, take, drop}
use osint_platform_core.Base.Rows.{update}

module _ {A : Type 0} (clash : A → A → Bool) where
  abbrev pub Apart : A → List A → Type 0
  Apart x xs = All (λ y. clash x y ≡ false) xs

  abbrev pub AreApart : List A → Type 0
  AreApart [] = Unit
  AreApart (x ∷ xs) = Apart x xs × AreApart xs

  -- A selection of rows that all clash with one another has one row at most.
  module _ (p : A → Bool) (selects : (x y : A) → p x ≡ true → clash x y ≡ false → p y ≡ false) where
    keep-Apart : (x : A) (xs : List A) → p x ≡ true → Apart x xs → keep p xs ≡ []
    keep-Apart x [] h a = refl
    keep-Apart x (y ∷ ys) h a = rw (selects x y h a.0) (keep-Apart x ys h a.1)

    pub keep-AreApart :
        (xs : List A) → AreApart xs → (keep p xs ≡ []) ⊎ ((x : A) × (keep p xs ≡ x ∷ []))
    keep-AreApart [] a = inl refl
    keep-AreApart (x ∷ xs) a = elim (Bool-cases (p x)) [
      | inl here ↦ inr (x, rw here (ap (λ r. x ∷ r) (keep-Apart x xs here a.0)))
      | inr other ↦ rw other (keep-AreApart xs a.1)
    ]

  -- A row that no selected row clashes with goes behind the others.
  module _ (p : A → Bool) (x : A) (misses : (y : A) → p y ≡ false → clash y x ≡ false) where
    pub AreApart-append : (xs : List A) → keep p xs ≡ [] → AreApart xs → AreApart (xs ++ x ∷ [])
    AreApart-append [] h a = (tt, tt)
    AreApart-append (y ∷ ys) h a = elim (Bool-cases (p y)) [
      | inl here ↦ let e : y ∷ keep p ys ≡ [] = rw here at h in cc
      | inr other ↦ (
        All-append (λ z. clash y z ≡ false) ys (x ∷ []) a.0 (misses y other, tt),
        AreApart-append ys (rw other at h) a.1,
      )
    ]

  pub AreApart_snoc :
      (x : A) (xs : List A)
      → All (λ y. clash y x ≡ false) xs
      → AreApart xs
      → AreApart (xs ++ x ∷ [])
  AreApart_snoc x [] h a = (tt, tt)
  AreApart_snoc x (y ∷ ys) h a =
      (All-append (λ z. clash y z ≡ false) ys (x ∷ []) a.0 (h.0, tt), AreApart_snoc x ys h.1 a.1)

  -- Two lists of which no row clashes with one of the other.
  pub AreApart_join :
      (xs ys : List A) → AreApart xs → AreApart ys → All (λ x. Apart x ys) xs → AreApart (xs ++ ys)
  AreApart_join [] ys a b h = b
  AreApart_join (x ∷ xs) ys a b h =
      (All-append (λ y. clash x y ≡ false) xs ys a.0 h.0, AreApart_join xs ys a.1 b h.1)

  Apart-take : (n : ℕ) (x : A) (xs : List A) → Apart x xs → Apart x (take n xs)
  Apart-take zero x xs a = tt
  Apart-take (suc n) x [] a = tt
  Apart-take (suc n) x (y ∷ ys) a = (a.0, Apart-take n x ys a.1)

  pub AreApart-take : (n : ℕ) (xs : List A) → AreApart xs → AreApart (take n xs)
  AreApart-take zero xs a = tt
  AreApart-take (suc n) [] a = tt
  AreApart-take (suc n) (x ∷ xs) a = (Apart-take n x xs a.0, AreApart-take n xs a.1)

  pub AreApart-drop : (n : ℕ) (xs : List A) → AreApart xs → AreApart (drop n xs)
  AreApart-drop zero xs a = a
  AreApart-drop (suc n) [] a = tt
  AreApart-drop (suc n) (x ∷ xs) a = AreApart-drop n xs a.1

  -- A selection of rows.
  pub AreApart-keep : (q : A → Bool) (xs : List A) → AreApart xs → AreApart (keep q xs)
  AreApart-keep q [] a = tt
  AreApart-keep q (x ∷ xs) a = elim (Bool-cases (q x)) [
    | inl kept ↦ rw kept (All-keep q xs (λ y h k. k) a.0, AreApart-keep q xs a.1)
    | inr dropped ↦ rw dropped (AreApart-keep q xs a.1)
  ]

  -- A change of rows that stay in their classes.
  module _ (q : A → Bool) (f : A → A) (left : (x y : A) → clash (f x) y ≡ clash x y)
      (right : (x y : A) → clash x (f y) ≡ clash x y) where
    clash-left : (b : Bool) (x y : A) → clash (if b then f x else x) y ≡ clash x y
    clash-left true x y = left x y
    clash-left false x y = refl

    clash-right : (b : Bool) (x y : A) → clash x (if b then f y else y) ≡ clash x y
    clash-right true x y = right x y
    clash-right false x y = refl

    Apart-update : (x : A) (ys : List A) → Apart x ys → Apart x (update q f ys)
    Apart-update x [] a = tt
    Apart-update x (y ∷ ys) a = (clash-right (q y) x y ∙ a.0, Apart-update x ys a.1)

    Apart-if : (b : Bool) (x : A) (zs : List A) → Apart x zs → Apart (if b then f x else x) zs
    Apart-if b x [] a = tt
    Apart-if b x (z ∷ zs) a = (clash-left b x z ∙ a.0, Apart-if b x zs a.1)

    pub AreApart-update : (xs : List A) → AreApart xs → AreApart (update q f xs)
    AreApart-update [] a = tt
    AreApart-update (x ∷ xs) a =
        (Apart-if (q x) x (update q f xs) (Apart-update x xs a.0), AreApart-update xs a.1)

module _ {A B : Type 0} (f : A → B) (clash : A → A → Bool) (clash' : B → B → Bool)
    (kept : (x y : A) → clash x y ≡ false → clash' (f x) (f y) ≡ false) where
  Apart-map : (x : A) (xs : List A) → Apart clash x xs → Apart clash' (f x) (map f xs)
  Apart-map x [] a = tt
  Apart-map x (y ∷ ys) a = (kept x y a.0, Apart-map x ys a.1)

  pub AreApart-map : (xs : List A) → AreApart clash xs → AreApart clash' (map f xs)
  AreApart-map [] a = tt
  AreApart-map (x ∷ xs) a = (Apart-map x xs a.0, AreApart-map xs a.1)
