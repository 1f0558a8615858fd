-- ===== src/Prelude/Assoc.antt =====
-- Go maps with string keys, as association lists. The program looks keys up, writes, deletes, and
-- walks over all entries, in an order that Go leaves open.
use Prim.Native.String.{String}
use mathlib.Core.Path.{◌≡◌, refl}
use mathlib.Core.Logic.{◌≢◌, inl, inr}
use mathlib.Core.Option.{Option, none, some}
use mathlib.Core.List.{List, [], ◌∷◌, Perm}
use mathlib.Core.List.Perm
use native.Mathlib.Omega.{arith}
use text.Mathlib.Text.{◌==◌}
use text.Mathlib.TextEquality.{eq_iff}
use ducks.Prelude.Tests.{if◌then◌else◌, Bool-cases}

abbrev pub Assoc {ℓ} : Type ℓ → Type ℓ
Assoc V = List (String × V)

module _ {ℓ} {V : Type ℓ} where
  -- `m[k]`
  unfoldable pub lookup : String → Assoc V → Option V
  lookup k [] = none
  lookup k ((j, v) ∷ m) = if j == k then some v else lookup k m

  -- `delete(m, k)`
  unfoldable pub remove : String → Assoc V → Assoc V
  remove k [] = []
  remove k ((j, v) ∷ m) = let rest = remove k m in if j == k then rest else (j, v) ∷ rest

  -- `m[k] = v`
  unfoldable pub insert : String → V → Assoc V → Assoc V
  insert k v m = (k, v) ∷ remove k m

  pub lookup-remove :
      (k j : String) (m : Assoc V) → lookup j (remove k m) ≡ (if k == j then none else lookup j m)
  unfolding lookup remove
  lookup-remove k j [] = ground arith
  lookup-remove k j ((i, v) ∷ m) =
      ground (arith, lookup-remove k j m, eq_iff i k, eq_iff i j, eq_iff k j)

  pub lookup-insert :
      (k j : String) (v : V) (m : Assoc V)
      → lookup j (insert k v m) ≡ (if k == j then some v else lookup j m)
  unfolding insert lookup
  lookup-insert k j v m = ground (arith, lookup-remove k j m)

  pub lookup-nil : (k : String) → ◌≡◌ {A = Option V} (lookup k []) none
  unfolding lookup
  lookup-nil k = refl

  pub lookup-insert_self : (k : String) (v : V) (m : Assoc V) → lookup k (insert k v m) ≡ some v
  lookup-insert_self k v m = rw lookup-insert (ground (arith, eq_iff k k))

  pub lookup-insert_ne :
      (k j : String) (v : V) (m : Assoc V) → j ≢ k → lookup j (insert k v m) ≡ lookup j m
  lookup-insert_ne k j v m ne = rw lookup-insert (ground (arith, eq_iff k j))

  pub lookup-remove_self : (k : String) (m : Assoc V) → lookup k (remove k m) ≡ none
  lookup-remove_self k m = rw lookup-remove (ground (arith, eq_iff k k))

  pub lookup-remove_ne : (k j : String) (m : Assoc V) → j ≢ k → lookup j (remove k m) ≡ lookup j m
  lookup-remove_ne k j m ne = rw lookup-remove (ground (arith, eq_iff k j))

module _ {V : Type 0} where
  -- No key stands twice.
  abbrev pub IsKeyed : Assoc V → Type 0
  IsKeyed [] = Unit {0}
  IsKeyed ((k, v) ∷ m) = (lookup k m ≡ none) × IsKeyed m

  pub remove_absent : (k : String) (m : Assoc V) → lookup k m ≡ none → remove k m ≡ m
  unfolding lookup remove
  remove_absent k [] h = refl
  remove_absent k ((j, v) ∷ m) h = ground (arith, remove_absent k m)

  pub remove-IsKeyed : (k : String) (m : Assoc V) → IsKeyed m → IsKeyed (remove k m)
  unfolding remove
  remove-IsKeyed k [] h = tt
  remove-IsKeyed k ((j, v) ∷ m) h =
      ground (arith, remove-IsKeyed k m h.1, lookup-remove k j m, eq_iff k j)

  pub insert-IsKeyed : (k : String) (v : V) (m : Assoc V) → IsKeyed m → IsKeyed (insert k v m)
  unfolding insert
  insert-IsKeyed k v m h = (lookup-remove_self k m, remove-IsKeyed k m h)

  pub remove-perm :
      (k : String) (v : V) (m : Assoc V)
      → IsKeyed m
      → lookup k m ≡ some v
      → Perm m ((k, v) ∷ remove k m)
  unfolding lookup remove
  remove-perm k v [] h e = cc
  remove-perm k v ((j, x) ∷ m) h e = elim (Bool-cases (j == k)) [
    | inl hit ↦
        let same : (j, x) ∷ m ≡ (k, v) ∷ remove k m =
          ground (arith, eq_iff j k, remove_absent k m) in
        rw (hit, same) (Perm.refl _)
    | inr miss ↦ rw miss (
        Perm.trans (Perm.cons (j, x) (remove-perm k v m h.1 (ground arith)))
          (Perm.swap (k, v) (j, x) (remove k m)))
  ]
