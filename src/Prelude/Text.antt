-- ===== src/Prelude/Text.antt =====
-- Go strings as the program uses them: concatenation (`+`, `fmt.Sprintf` with `%s`),
-- `strings.HasSuffix` and `strings.ToLower`.
use Prim.Native.Nat.{compare, Ordering}
use Prim.Native.Char.{Char, code}
use Prim.Native.String
use Prim.Native.String.{String}
use mathlib.Core.Path.{◌≡◌, refl, sym, ap, ◌∙◌}
use mathlib.Core.Logic.{◌≢◌, inl, inr}
use mathlib.Core.Bool.{Bool, true, false, ◌||◌}
use native.Mathlib.Omega.{arith}
use text.Mathlib.Text.{◌==◌}
use text.Mathlib.TextEquality.{eq_iff}
use text.Mathlib.TextPositions.{eq_refl}
use text.Mathlib.TextLemmas.{
  append_assoc, nil-append, cons-append, cons≢nil, append-ne-nil_of_right_ne-nil,
}
use ducks.Prelude.Tests.{Bool-cases}

infixr 65 ◌<>◌
abbrev pub ◌<>◌ : String → String → String
s <> t = String.◌++◌ s t

pub <>-assoc : (s t u : String) → (s <> t) <> u ≡ s <> (t <> u)
<>-assoc = append_assoc

unfoldable pub has_suffix : String → String → Bool
has_suffix String.[] t = "" == t
has_suffix (String.◌∷◌ c s) t = (String.◌∷◌ c s == t) || has_suffix s t

has_suffix_refl : (t : String) → has_suffix t t ≡ true
unfolding has_suffix
has_suffix_refl String.[] = refl
has_suffix_refl (String.◌∷◌ c t) = rw eq_refl

pub has_suffix-append : (s t : String) → has_suffix (s <> t) t ≡ true
unfolding has_suffix
has_suffix-append String.[] t = rw nil-append (has_suffix_refl t)
has_suffix-append (String.◌∷◌ c s) t = rw cons-append (ground (arith, has_suffix-append s t))

pub has_suffix-split : (s t : String) → has_suffix s t ≡ true → (p : String) × (s ≡ p <> t)
unfolding has_suffix
has_suffix-split String.[] t h = ("", (eq_iff "" t).0 h ∙ sym (nil-append t))
has_suffix-split (String.◌∷◌ c s) t h = elim (Bool-cases (String.◌∷◌ c s == t)) [
  | inl same ↦ ("", (eq_iff _ t).0 same ∙ sym (nil-append t))
  | inr other ↦
      let (p, e) = has_suffix-split s t (rw other at h) in
      (String.◌∷◌ c p, ap (String.◌∷◌ c) e ∙ sym (cons-append c p t))
]

-- Whether a text holds a dot.
unfoldable pub has_dot : String → Bool
has_dot String.[] = false
has_dot (String.◌∷◌ c s) = elim (compare (code c) b'.') [ Ordering.eq ↦ true | _ ↦ has_dot s ]

-- `strings.ToLower`: every character is mapped by `unicode.ToLower`, whose table is a parameter.
unfoldable pub to_lower : (Char → Char) → String → String
to_lower lower String.[] = String.[]
to_lower lower (String.◌∷◌ c s) = String.◌∷◌ (lower c) (to_lower lower s)

module _ (lower : Char → Char) where
  pub to_lower_idem :
      ((c : Char) → lower (lower c) ≡ lower c)
      → (s : String) → to_lower lower (to_lower lower s) ≡ to_lower lower s
  unfolding to_lower
  to_lower_idem h String.[] = refl
  to_lower_idem h (String.◌∷◌ c s) = cc (h c, to_lower_idem h s)

  pub to_lower-ne-nil : (s : String) → s ≢ "" → to_lower lower s ≢ ""
  unfolding to_lower
  to_lower-ne-nil String.[] h = h
  to_lower-ne-nil (String.◌∷◌ c s) h = cons≢nil

pub <>-ne-nil : (s t : String) → t ≢ "" → s <> t ≢ ""
<>-ne-nil s t = append-ne-nil_of_right_ne-nil s
