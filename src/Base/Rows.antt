-- ===== src/Base/Rows.antt =====
-- Tables: lists of rows, each with a key. A store keeps its rows in order of insertion.
use osint_platform_core.Base.Tests.{if◌then◌else◌, Bool-cases}
use mathlib.Core.Logic.{inl, inr}
use osint_platform_core.Base.Lists.{All, any}
use mathlib.Core.Path.{◌≡◌, refl, ◌∙◌}
use mathlib.Core.Bool.{Bool, true, false}
use mathlib.Core.Option.{Option, none, some}
use mathlib.Core.Option
use mathlib.Core.List.{List, [], ◌∷◌, ◌++◌}
use native.Mathlib.Omega.{arith}

module _ {ℓ} {A : Type ℓ} where
  -- The first row that passes a test.
  abbrev pub find : (A → Bool) → List A → Option A
  find p [] = none
  find p (x ∷ xs) = if p x then some x else find p xs

  -- Rows that pass a test are changed, the others stay.
  abbrev pub update : (A → Bool) → (A → A) → List A → List A
  update p f [] = []
  update p f (x ∷ xs) = (if p x then f x else x) ∷ update p f xs

  abbrev pub or_else : Option A → Option A → Option A
  or_else none y = y
  or_else (some x) y = some x

module _ {ℓ} {A : Type ℓ} where
  pub find-append :
      (p : A → Bool) (xs ys : List A) → find p (xs ++ ys) ≡ or_else (find p xs) (find p ys)
  find-append p [] ys = refl
  find-append p (x ∷ xs) ys = ground (arith, find-append p xs ys)

  -- What is found passes the test.
  pub find-passes : (p : A → Bool) (xs : List A) (x : A) → find p xs ≡ some x → p x ≡ true
  find-passes p [] x h = cc
  find-passes p (y ∷ ys) x h = ground (arith, find-passes p ys x)

  pub find-none : (p : A → Bool) (xs : List A) → All (λ x. p x ≡ false) xs → find p xs ≡ none
  find-none p [] h = refl
  find-none p (x ∷ xs) h = ground (arith, find-none p xs h.1)

module _ {ℓ} {A : Type ℓ} (q : A → Bool) (f : A → A) where
  if-preserves {κ} :
      (P : A → Type κ) (b : Bool) (x : A) → (P x → P (f x)) → P x → P (if b then f x else x)
  if-preserves P true x h k = h k
  if-preserves P false x h k = k

  pub All-update {κ} :
      (P : A → Type κ) (xs : List A) → ((x : A) → P x → P (f x)) → All P xs → All P (update q f xs)
  All-update P [] h k = tt
  All-update P (x ∷ xs) h k = (if-preserves P (q x) x (h x) k.0, All-update P xs h k.1)

  pub any-update :
      (p : A → Bool) (xs : List A) → ((x : A) → p (f x) ≡ p x) → any p (update q f xs) ≡ any p xs
  any-update p [] h = refl
  any-update p (x ∷ xs) h = ground (arith, any-update p xs h, h x)

module _ {ℓ} {A : Type ℓ} where
  -- What is found is there.
  pub find-any : (p : A → Bool) (xs : List A) (x : A) → find p xs ≡ some x → any p xs ≡ true
  find-any p [] x h = cc
  find-any p (y ∷ ys) x h = ground (arith, find-any p ys x)

module _ {ℓ} {A : Type ℓ} (q : A → Bool) (f : A → A) (same : (x : A) → q (f x) ≡ q x) where
  -- The row that is updated is found with its new fields.
  pub find-update : (xs : List A) → find q (update q f xs) ≡ Option.map f (find q xs)
  find-update [] = refl
  find-update (x ∷ xs) = elim (Bool-cases (q x)) [
    | inl here ↦ rw here (rw (same x ∙ here) refl)
    | inr other ↦ rw other (rw other (find-update xs))
  ]
