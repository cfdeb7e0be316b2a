-- ===== src/Effects.antt =====
-- The effects of the code as explicit state: `W` is everything outside the process, a call of
-- other code is a function on it, and a nil dereference or a failed index is a panic.
use helm_operator.Base.{Option, none, some}
use helm_operator.Errors.{Error}

-- Go's `(A, error)`.
pub data Result {ℓ} (A : Type ℓ) : Type ℓ where
  ok : A → Result A
  err : Error → Result A

pub data Outcome {ℓ} (A : Type ℓ) : Type ℓ where
  returned : A → Outcome A
  panicked : Outcome A

-- A call of code that is a parameter.
abbrev pub Call : Type 0 → Type 0 → Type 0
Call W A = W → A × W

abbrev pub M : Type 0 → Type 0 → Type 0
M W A = W → Outcome A × W

module _ {W : Type 0} where
  infixl 5 ◌>>=◌ ◌>>◌
  abbrev pub ◌>>=◌ : {A B : Type 0} → M W A → (A → M W B) → M W B
  ◌>>=◌ m f w = let (r, w') = m w in elim r [ returned a ↦ f a w' | panicked ↦ (panicked, w') ]

  abbrev pub ◌>>◌ : {A B : Type 0} → M W A → M W B → M W B
  m >> k = m >>= λ _. k

  abbrev pub pure : {A : Type 0} → A → M W A
  pure a w = (returned a, w)

  abbrev pub call : {A : Type 0} → Call W A → M W A
  call c w = let (a, w') = c w in (returned a, w')

  abbrev pub panic : {A : Type 0} → M W A
  panic w = (panicked, w)

  -- A `defer` runs however the body ends.
  abbrev pub with_defer : {A : Type 0} → M W A → (Outcome A → W → W) → M W A
  with_defer m d w = let (r, w') = m w in (r, d r w')

abbrev pub error_of {ℓ} : {A : Type ℓ} → Result A → Option Error
error_of (ok _) = none
error_of (err e) = some e
