-- ===== src/Main/Parts.antt =====
-- Lists that are put together from parts, some of them only where a path is given.
use ducks.Prelude.{
  String, ◌≢◌, ◌⊎◌, inl, inr, List, [], ◌∷◌, ◌++◌, ◌==◌, In, All, arith, eq_iff, Bool-cases,
  if-false, subst, sym,
}
use ducks.Main.{if_given}

module _ {A : Type 0} where
  pub In-left : (a : A) (xs ys : List A) → In a xs → In a (xs ++ ys)
  In-left a [] ys i = absurd i
  In-left a (x ∷ xs) ys (inl e) = inl e
  In-left a (x ∷ xs) ys (inr i) = inr (In-left a xs ys i)

  pub In-right : (a : A) (xs ys : List A) → In a ys → In a (xs ++ ys)
  In-right a [] ys i = i
  In-right a (x ∷ xs) ys i = inr (In-right a xs ys i)

  pub In-cases : (a : A) (xs ys : List A) → In a (xs ++ ys) → In a xs ⊎ In a ys
  In-cases a [] ys i = inr i
  In-cases a (x ∷ xs) ys (inl e) = inl (inl e)
  In-cases a (x ∷ xs) ys (inr i) = elim (In-cases a xs ys i) [ inl j ↦ inl (inr j) | inr j ↦ inr j ]

  pub In-if_given :
      (a : A) (path : String) (xs : List A) → path ≢ "" → In a xs → In a (if_given path xs)
  In-if_given a path xs given i =
      subst (In a) (sym (if-false [] xs (ground (arith, eq_iff path "")))) i

  module _ (P : A → Type 0) where
    pub All-append : (xs ys : List A) → All P xs → All P ys → All P (xs ++ ys)
    All-append [] ys h g = g
    All-append (x ∷ xs) ys h g = (h.0, All-append xs ys h.1 g)

    pub All-if_given :
        (path : String) (xs : List A) → (path ≢ "" → All P xs) → All P (if_given path xs)
    All-if_given path xs h = elim (Bool-cases (path == "")) [
      | inl none ↦ rw none tt
      | inr given ↦ rw given (h (ground (arith, eq_iff path "")))
    ]
