-- ===== src/Copies/Slices.antt =====
-- Deep copies of slices and of the lists that hold them.
use ducks.Prelude.{ℕ, ◌≤◌, ◌<◌, ◌≡◌, ◌⊎◌, inl, inr, refl, ◌∙◌, arith, List, [], ◌∷◌}
use ducks.Copies.{Memory, Resource, each_deep_copy}
use ducks.Copies.Laws.{
  Held, Agree, Extends, Copies, Extends-refl, Extends-trans, Extends-Agree, Extends-view, copy-Held,
}

module _ {C : Type 0} (x : Resource C) where
  -- The elements of an array, all together.
  abbrev AnyOwns : List x.Value → Memory C → ℕ → Type 0
  AnyOwns [] m i = ⊥
  AnyOwns (v ∷ vs) m i = x.Owns v m i ⊎ AnyOwns vs m i

  abbrev views : List x.Value → Memory C → List x.View
  views [] m = []
  views (v ∷ vs) m = x.view v m ∷ views vs m

  abbrev pub each : Resource C
  each = record {
    Value = List x.Value;
    View = List x.View;
    zero = [];
    view = views;
    Owns = AnyOwns;
    deep_copy = each_deep_copy x;
  }

  module _ (p : Copies x) where
    each-view-frame :
        (vs : List x.Value) (m m' : Memory C) → Agree each vs m m' → views vs m' ≡ views vs m
    each-view-frame [] m m' same = refl
    each-view-frame (v ∷ vs) m m' same = cc (
      p.view-frame v m m' (λ i o. same i (inl o)),
      each-view-frame vs m m' (λ i o. same i (inr o)),
    )

    each-owns-frame :
        (vs : List x.Value) (m m' : Memory C)
        → Agree each vs m m'
        → (i : ℕ) → AnyOwns vs m' i
        → AnyOwns vs m i
    each-owns-frame (v ∷ vs) m m' same i (inl o) =
        inl (p.owns-frame v m m' (λ j q. same j (inl q)) i o)
    each-owns-frame (v ∷ vs) m m' same i (inr o) =
        inr (each-owns-frame vs m m' (λ j q. same j (inr q)) i o)
    each-owns-frame [] m m' same i o = o

    each-Extends : (vs : List x.Value) (m : Memory C) → Extends m (each_deep_copy x vs m).1
    unfolding each_deep_copy
    each-Extends [] m = Extends-refl m
    each-Extends (v ∷ vs) m = Extends-trans (p.extends v m) (each-Extends vs (x.deep_copy v m).1)

    each-fresh :
        (vs : List x.Value) (m : Memory C) (i : ℕ)
        → AnyOwns (each_deep_copy x vs m).0 (each_deep_copy x vs m).1 i
        → (m.next ≤ i) × (i < (each_deep_copy x vs m).1.next)
    unfolding each_deep_copy
    each-fresh [] m i o = absurd o
    each-fresh (v ∷ vs) m i (inl o) =
        let rest = each-Extends vs (x.deep_copy v m).1 in
        let (low, high) =
          p.fresh v m i (p.owns-frame _ _ _ (Extends-Agree x p _ (copy-Held x p v m) rest) i o) in
        (low, omega (arith, high, rest.grows))
    each-fresh (v ∷ vs) m i (inr o) =
        let (low, high) = each-fresh vs (x.deep_copy v m).1 i o in
        (omega (arith, low, (p.extends v m).grows), high)

    each-Held :
        (vs : List x.Value) {m m' : Memory C} → Held each vs m → Extends m m' → Held each vs m'
    each-Held vs {m} {m'} held e i o =
        let old = held i (each-owns-frame vs m m' (λ j q. e.kept j (held j q)) i o) in
        omega (arith, old, e.grows)

    each-view-copy :
        (vs : List x.Value) (m : Memory C)
        → Held each vs m
        → views (each_deep_copy x vs m).0 (each_deep_copy x vs m).1 ≡ views vs m
    unfolding each_deep_copy
    each-view-copy [] m held = refl
    each-view-copy (v ∷ vs) m held =
        let m₁ = (x.deep_copy v m).1 in
        let first = p.extends v m in
        let rest_held : Held each vs m = λ i o. held i (inr o) in
        let left =
          Extends-view x p _ (copy-Held x p v m) (each-Extends vs m₁)
          ∙ p.view-copy v m (λ i o. held i (inl o)) in
        let right =
          each-view-copy vs m₁ (each-Held vs rest_held first)
          ∙ each-view-frame vs m m₁ (λ i o. first.kept i (rest_held i o)) in
        cc (left, right)

    pub each-Copies : Copies each
    each-Copies = record {
      view-frame = each-view-frame;
      owns-frame = each-owns-frame;
      extends = each-Extends;
      fresh = each-fresh;
      view-copy = each-view-copy;
    }
