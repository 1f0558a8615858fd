-- ===== src/Prelude/Exec.antt =====
-- Calls that read and write a shared world and may fail. What was written before a failure stays
-- written, so the world comes back beside the error too.
use mathlib.Core.Path.{◌≡◌, refl}
use mathlib.Core.Logic.{◌⊎◌, inl, inr}

-- A Go result `(value, error)`, of which exactly one part counts.
pub data Result {ℓ} (E A : Type ℓ) : Type ℓ where
  ok : A → Result E A
  err : E → Result E A

abbrev pub Exec {ℓ} : Type ℓ → Type ℓ → Type ℓ → Type ℓ
Exec W E A = W → Result E A × W

module _ {ℓ} {W E A : Type ℓ} where
  abbrev pub pure : A → Exec W E A
  pure a w = (ok a, w)

  abbrev pub raise : E → Exec W E A
  raise e w = (err e, w)

  abbrev pub map_result : {F : Type ℓ} → (E → F) → Result E A × W → Result F A × W
  map_result f (ok a, w) = (ok a, w)
  map_result f (err e, w) = (err (f e), w)

  -- A call whose error is wrapped or replaced.
  abbrev pub map_error : {F : Type ℓ} → (E → F) → Exec W E A → Exec W F A
  map_error f m w = map_result f (m w)

module _ {ℓ} {W E A B : Type ℓ} where
  abbrev pub continue : Result E A × W → (A → Exec W E B) → Result E B × W
  continue (ok a, w) f = f a w
  continue (err e, w) f = (err e, w)

  infixl 10 ◌>>=◌ ◌>>◌
  abbrev pub ◌>>=◌ : Exec W E A → (A → Exec W E B) → Exec W E B
  ◌>>=◌ m f w = continue (m w) f

  abbrev pub ◌>>◌ : Exec W E A → Exec W E B → Exec W E B
  m >> n = m >>= λ _. n

module _ {ℓ} {W E A : Type ℓ} where
  -- To split on the outcome of a call and keep the equation.
  pub outcome_cases :
      (r : Result E A × W)
      → ((a : A) × (w : W) × (r ≡ (ok a, w))) ⊎ ((e : E) × (w : W) × (r ≡ (err e, w)))
  outcome_cases (ok a, w) = inl (a, w, refl)
  outcome_cases (err e, w) = inr (e, w, refl)
