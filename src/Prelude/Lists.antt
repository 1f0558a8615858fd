-- ===== src/Prelude/Lists.antt =====
-- Lists measured by native numbers, membership and the universal predicate by recursion.
use Prim.Native.Nat.{ℕ, suc, ◌+◌}
use mathlib.Core.Path.{◌≡◌, refl}
use mathlib.Core.Logic.{◌⊎◌, inl, inr, ◌↔◌}
use mathlib.Core.List.{List, [], ◌∷◌, ◌++◌}
use native.Mathlib.Omega.{arith}

module _ {ℓ} {A : Type ℓ} where
  abbrev pub length : List A → ℕ
  length [] = 0
  length (x ∷ xs) = suc (length xs)

  pub length-append : (xs ys : List A) → length (xs ++ ys) ≡ length xs + length ys
  length-append [] ys = omega arith
  length-append (x ∷ xs) ys = omega (arith, length-append xs ys)

-- The occurrences of a value in a list.
abbrev pub In : {A : Type 0} → A → List A → Type 0
In a [] = ⊥
In a (x ∷ xs) = (a ≡ x) ⊎ In a xs

abbrev pub All {ℓ κ} : {A : Type ℓ} → (A → Type κ) → List A → Type κ
All P [] = Unit
All P (x ∷ xs) = P x × All P xs

pub All-In {κ} : {A : Type 0} (P : A → Type κ) (xs : List A) {a : A} → All P xs → In a xs → P a
All-In P [] h i = absurd i
All-In P (x ∷ xs) h (inl e) = rw e h.0
All-In P (x ∷ xs) h (inr i) = All-In P xs h.1 i

pub append-eq-nil {ℓ} : {A : Type ℓ} (xs ys : List A) → ((xs ++ ys) ≡ []) ↔ ((xs ≡ []) × (ys ≡ []))
append-eq-nil [] ys = ((λ e. (refl, e)), λ h. h.1)
append-eq-nil (x ∷ xs) ys = ((λ e. cc), λ h. cc (h.0))

-- Two parts of an error list that are each empty exactly when something holds.
pub append-eq-nil_iff {ℓ κ μ} :
    {A : Type ℓ} {P : Type κ} {Q : Type μ} (xs ys : List A)
    → (xs ≡ []) ↔ P
    → (ys ≡ []) ↔ Q
    → ((xs ++ ys) ≡ []) ↔ (P × Q)
append-eq-nil_iff xs ys p q = (
  (λ e. let (a, b) = (append-eq-nil xs ys).0 e in (p.0 a, q.0 b)),
  (λ h. (append-eq-nil xs ys).1 (p.1 h.0, q.1 h.1)),
)

pub ↔-trans {ℓ κ μ} : {P : Type ℓ} {Q : Type κ} {R : Type μ} → P ↔ Q → Q ↔ R → P ↔ R
↔-trans p q = ((λ x. q.0 (p.0 x)), λ z. p.1 (q.1 z))
