-- ===== src/Base/Http.antt =====
-- What a handler of the API yields: a value, an `HTTPException`, or an exception of another class,
-- which FastAPI answers with status 500. The database session comes back beside it.
use Prim.Native.Nat.{ℕ}
use Prim.Native.String.{String}
use mathlib.Core.Path.{◌≡◌, refl}
use mathlib.Core.List.{List, [], ◌∷◌}

pub data Outcome {ℓ} (A : Type ℓ) : Type ℓ where
  ok : A → Outcome A
  http_exception : (status_code : ℕ) → (detail : String) → Outcome A
  unhandled : (error : String) → Outcome A

-- A handler that works on a state `S`.
abbrev pub Handler {ℓ} : Type ℓ → Type ℓ → Type ℓ
Handler S A = S → Outcome A × S

module _ {ℓ} {S A : Type ℓ} where
  abbrev pub pure : A → Handler S A
  pure a s = (ok a, s)

  abbrev pub fail : ℕ → String → Handler S A
  fail code detail s = (http_exception code detail, s)

  abbrev pub crash : String → Handler S A
  crash error s = (unhandled error, s)

  abbrev pub gets : (S → A) → Handler S A
  gets f s = (ok (f s), s)

module _ {ℓ} {S A B : Type ℓ} where
  abbrev pub continue : Outcome A → (A → Handler S B) → Handler S B
  continue (ok a) f s = f a s
  continue (http_exception code detail) f s = (http_exception code detail, s)
  continue (unhandled error) f s = (unhandled error, s)

  infixl 5 ◌>>=◌
  abbrev pub ◌>>=◌ : Handler S A → (A → Handler S B) → Handler S B
  ◌>>=◌ m f s = let (r, s') = m s in continue r f s'

-- A comprehension whose element may raise: the first that raises ends it.
module _ {ℓ} {B : Type ℓ} where
  abbrev pub cons_outcome : Outcome B → Outcome (List B) → Outcome (List B)
  cons_outcome (ok y) (ok ys) = ok (y ∷ ys)
  cons_outcome (ok y) (http_exception code detail) = http_exception code detail
  cons_outcome (ok y) (unhandled error) = unhandled error
  cons_outcome (http_exception code detail) ys = http_exception code detail
  cons_outcome (unhandled error) ys = unhandled error

module _ {ℓ} {A B : Type ℓ} where
  unfoldable pub traverse : (A → Outcome B) → List A → Outcome (List B)
  traverse f [] = ok []
  traverse f (x ∷ xs) = cons_outcome (f x) (traverse f xs)

module _ {ℓ} {S A B : Type ℓ} where
  -- A step that returned is followed by the rest.
  pub bind-ok :
      (m : Handler S A) (f : A → Handler S B) (s s' : S) (a : A)
      → m s ≡ (ok a, s')
      → (m >>= f) s ≡ f a s'
  bind-ok m f s s' a h = rw h

module _ {ℓ} {S A : Type ℓ} where
  abbrev commit_or_rollback : S → Outcome A → S → S
  commit_or_rollback before (ok a) after = after
  commit_or_rollback before _ after = before

  -- `get_async_session`: commit what the handler did if it returned, roll it back if it raised.
  unfoldable pub with_session : Handler S A → Handler S A
  with_session m s = let (r, s') = m s in (r, commit_or_rollback s r s')

  rollback :
      (before : S) (r : Outcome A) (after : S)
      → ((a : A) → r ≡ ok a → ⊥)
      → commit_or_rollback before r after ≡ before
  rollback before (ok a) after h = absurd (h a refl)
  rollback before (http_exception code detail) after h = refl
  rollback before (unhandled error) after h = refl

  -- A handler that raises leaves the database as it was.
  pub with_session_rollback :
      (m : Handler S A) (s : S)
      → ((a : A) → (with_session m s).0 ≡ ok a → ⊥)
      → (with_session m s).1 ≡ s
  unfolding with_session
  with_session_rollback m s h = rollback s (m s).0 (m s).1 h

  keeps-commit {κ} :
      (P : S → Type κ) (before : S) (r : Outcome A) (after : S)
      → P before
      → P after
      → P (commit_or_rollback before r after)
  keeps-commit P before (ok a) after b c = c
  keeps-commit P before (http_exception code detail) after b c = b
  keeps-commit P before (unhandled error) after b c = b

  -- What held before a session and holds after its handler holds after the session.
  pub with_session-keeps {κ} :
      (P : S → Type κ) (m : Handler S A) (s : S) → P s → P (m s).1 → P (with_session m s).1
  unfolding with_session
  with_session-keeps P m s b c = keeps-commit P s (m s).0 (m s).1 b c

  -- A session that returned is its handler.
  pub with_session-ok :
      (m : Handler S A) (s : S) (a : A) → (with_session m s).0 ≡ ok a → with_session m s ≡ m s
  unfolding with_session
  with_session-ok m s a h = rw h refl
