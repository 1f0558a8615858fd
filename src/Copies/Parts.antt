-- ===== src/Copies/Parts.antt =====
-- Deep copies of values made of parts: plain values and pairs.
use ducks.Prelude.{ℕ, ◌≤◌, ◌<◌, ◌≡◌, ◌⊎◌, inl, inr, refl, ◌∙◌, arith}
use ducks.Copies.{Memory, Resource, plain_deep_copy}
use ducks.Copies.Laws.{
  Held, Agree, Extends, Copies, Extends-refl, Extends-trans, Extends-Agree, Extends-view,
  Extends-Held, copy-Held,
}

module _ {C : Type 0} where
  -- A type without references.
  abbrev pub plain : {A : Type 0} → A → Resource C
  plain {A} zero = record {
    Value = A;
    View = A;
    zero = zero;
    view = λ a m. a;
    Owns = λ a m i. ⊥;
    deep_copy = plain_deep_copy;
  }

  pub plain-Copies : {A : Type 0} (zero : A) → Copies (plain zero)
  unfolding plain_deep_copy
  plain-Copies zero = record {
    view-frame = λ a m m' same. refl;
    owns-frame = λ a m m' same i o. o;
    extends = λ a m. Extends-refl m;
    fresh = λ a m i o. absurd o;
    view-copy = λ a m held. refl;
  }

  -- A struct with two parts that have references.
  abbrev pub pair : Resource C → Resource C → Resource C
  pair x y = record {
    Value = x.Value × y.Value;
    View = x.View × y.View;
    zero = (x.zero, y.zero);
    view = λ v m. (x.view v.0 m, y.view v.1 m);
    Owns = λ v m i. x.Owns v.0 m i ⊎ y.Owns v.1 m i;
    deep_copy =
        λ v m. let (a, m₁) = x.deep_copy v.0 m in let (b, m₂) = y.deep_copy v.1 m₁ in ((a, b), m₂);
  }

  module _ (x y : Resource C) (px : Copies x) (py : Copies y) (v : x.Value × y.Value)
      (m : Memory C) where
    first_memory : Memory C
    first_memory = (x.deep_copy v.0 m).1

    second : Extends first_memory ((pair x y).deep_copy v m).1
    unfolding first_memory
    second = py.extends v.1 first_memory

    pair-fresh :
        (i : ℕ)
        → (pair x y).Owns ((pair x y).deep_copy v m).0 ((pair x y).deep_copy v m).1 i
        → (m.next ≤ i) × (i < ((pair x y).deep_copy v m).1.next)
    unfolding first_memory
    pair-fresh i (inl o) =
        let (low, high) =
          px.fresh v.0 m i
            (px.owns-frame _ _ _ (Extends-Agree x px _ (copy-Held x px v.0 m) second) i o) in
        (low, omega (arith, high, second.grows))
    pair-fresh i (inr o) =
        let (low, high) = py.fresh v.1 first_memory i o in
        (omega (arith, low, (px.extends v.0 m).grows), high)

    pair-view-copy :
        Held (pair x y) v m
        → (pair x y).view ((pair x y).deep_copy v m).0 ((pair x y).deep_copy v m).1
          ≡ (pair x y).view v m
    unfolding first_memory
    pair-view-copy held =
        let left =
          Extends-view x px _ (copy-Held x px v.0 m) second
          ∙ px.view-copy v.0 m (λ i o. held i (inl o)) in
        let held₁ : Held y v.1 m = λ i o. held i (inr o) in
        let right =
          py.view-copy v.1 first_memory (Extends-Held y py v.1 held₁ (px.extends v.0 m))
          ∙ Extends-view y py v.1 held₁ (px.extends v.0 m) in
        cc (left, right)

  pub pair-Copies : (x y : Resource C) → Copies x → Copies y → Copies (pair x y)
  pair-Copies x y px py = record {
    view-frame = λ v m m' same. cc (
      px.view-frame v.0 m m' (λ i o. same i (inl o)),
      py.view-frame v.1 m m' (λ i o. same i (inr o)),
    );
    owns-frame = pair-owns-frame;
    extends = λ v m. Extends-trans (px.extends v.0 m) (py.extends v.1 (x.deep_copy v.0 m).1);
    fresh = pair-fresh x y px py;
    view-copy = pair-view-copy x y px py;
  }
    where
      pair-owns-frame :
          (v : x.Value × y.Value) (m m' : Memory C)
          → Agree (pair x y) v m m'
          → (i : ℕ) → (pair x y).Owns v m' i
          → (pair x y).Owns v m i
      pair-owns-frame v m m' same i (inl o) =
          inl (px.owns-frame v.0 m m' (λ j p. same j (inl p)) i o)
      pair-owns-frame v m m' same i (inr o) =
          inr (py.owns-frame v.1 m m' (λ j p. same j (inr p)) i o)
