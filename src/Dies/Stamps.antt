-- ===== src/Dies/Stamps.antt =====
-- Functions that change a resource in place, and what they do to a copy of another one.
use ducks.Prelude.{ℕ, ◌≤◌, ◌<◌, ◌≡◌, ◌⊎◌, inl, inr, refl, ap, ◌∙◌, arith, List, [], ◌∷◌}
use ducks.Copies.{Memory, Resource}
use ducks.Copies.Laws.{Held, Extends, Copies}

module _ {C : Type 0} (x : Resource C) where
  -- A function that is given a pointer to a resource: it writes to the cells that the resource owns
  -- and to new ones, leaves the resource with such cells only, and acts on what can be read.
  pub record IsLocal (fn : x.Value → Memory C → x.Value × Memory C) (act : x.View → x.View)
      : Type 0 where
    pub grows : (r : x.Value) (m : Memory C) → m.next ≤ (fn r m).1.next
    pub kept :
        (r : x.Value) (m : Memory C) (i : ℕ)
        → i < m.next
        → ¬ x.Owns r m i
        → (fn r m).1.cell i ≡ m.cell i
    pub owns :
        (r : x.Value) (m : Memory C) (i : ℕ)
        → x.Owns (fn r m).0 (fn r m).1 i
        → x.Owns r m i ⊎ ((m.next ≤ i) × (i < (fn r m).1.next))
    pub acts :
        (r : x.Value) (m : Memory C) → Held x r m → x.view (fn r m).0 (fn r m).1 ≡ act (x.view r m)

  -- A value in `m'` that was built over `m`: it owns new cells only.
  pub record IsNew (m : Memory C) (r : x.Value) (m' : Memory C) : Type 0 where
    pub extends : Extends m m'
    pub fresh : (i : ℕ) → x.Owns r m' i → (m.next ≤ i) × (i < m'.next)

  pub IsNew-Held : {m m' : Memory C} {r : x.Value} → IsNew m r m' → Held x r m'
  IsNew-Held n i o = (n.fresh i o).1

  pub copy-IsNew :
      Copies x → (r : x.Value) (m : Memory C) → IsNew m (x.deep_copy r m).0 (x.deep_copy r m).1
  copy-IsNew p r m = record { extends = p.extends r m; fresh = p.fresh r m }

  -- A copy of a new value is new.
  pub copy-again :
      Copies x
      → {m m' : Memory C} (r : x.Value) → Extends m m'
      → IsNew m (x.deep_copy r m').0 (x.deep_copy r m').1
  copy-again p {m} {m'} r e = record {
    extends = record {
      grows = omega (arith, e.grows, (p.extends r m').grows);
      kept = λ i h. (p.extends r m').kept i (omega (arith, e.grows)) ∙ e.kept i h;
    };
    fresh = λ i o. let (low, high) = p.fresh r m' i o in (omega (arith, e.grows), high);
  }

  pub local-IsNew :
      {m m' : Memory C} {r : x.Value} {fn : x.Value → Memory C → x.Value × Memory C}
      {act : x.View → x.View}
      → IsLocal fn act
      → IsNew m r m'
      → IsNew m (fn r m').0 (fn r m').1
  local-IsNew {m} {m'} {r} {fn} l n = record {
    extends = record {
      grows = omega (arith, n.extends.grows, l.grows r m');
      kept = λ i h.
          l.kept r m' i (omega (arith, n.extends.grows))
            (λ o. let (low, high) = n.fresh i o in omega (arith, low))
          ∙ n.extends.kept i h;
    };
    fresh = λ i o. by_owner i (l.owns r m' i o);
  }
    where
      by_owner :
          (i : ℕ)
          → x.Owns r m' i ⊎ ((m'.next ≤ i) × (i < (fn r m').1.next))
          → (m.next ≤ i) × (i < (fn r m').1.next)
      by_owner i (inl o) = let (low, high) = n.fresh i o in (low, omega (arith, high, l.grows r m'))
      by_owner i (inr (low, high)) = (omega (arith, low, n.extends.grows), high)

  pub IsLocal-id : IsLocal (λ r m. (r, m)) (λ v. v)
  IsLocal-id = record {
    grows = λ r m. omega arith;
    kept = λ r m i h n. refl;
    owns = λ r m i o. inl o;
    acts = λ r m held. refl;
  }

  -- Two local functions, one after the other.
  pub IsLocal-then :
      {fn gn : x.Value → Memory C → x.Value × Memory C} {act bct : x.View → x.View}
      → IsLocal fn act
      → IsLocal gn bct
      → IsLocal (λ r m. gn (fn r m).0 (fn r m).1) (λ v. bct (act v))
  IsLocal-then {fn} {gn} {act} {bct} f g = record {
    grows = λ r m. omega (arith, f.grows r m, g.grows (fn r m).0 (fn r m).1);
    kept = λ r m i h n.
        g.kept (fn r m).0 (fn r m).1 i (omega (arith, f.grows r m)) (not_owned r m i h n)
        ∙ f.kept r m i h n;
    owns = λ r m i o. of_second r m i (g.owns (fn r m).0 (fn r m).1 i o);
    acts = λ r m held.
        g.acts (fn r m).0 (fn r m).1 (λ i o. in_use r m i held (f.owns r m i o))
        ∙ ap bct (f.acts r m held);
  }
    where
      not_owned :
          (r : x.Value) (m : Memory C) (i : ℕ)
          → i < m.next
          → ¬ x.Owns r m i
          → ¬ x.Owns (fn r m).0 (fn r m).1 i
      not_owned r m i h n o = elim (f.owns r m i o) [
        | inl old ↦ absurd (n old)
        | inr (low, high) ↦ absurd (omega (arith, h, low))
      ]

      in_use :
          (r : x.Value) (m : Memory C) (i : ℕ)
          → Held x r m
          → x.Owns r m i ⊎ ((m.next ≤ i) × (i < (fn r m).1.next))
          → i < (fn r m).1.next
      in_use r m i held (inl o) = omega (arith, held i o, f.grows r m)
      in_use r m i held (inr (low, high)) = high

      of_second :
          (r : x.Value) (m : Memory C) (i : ℕ)
          → x.Owns (fn r m).0 (fn r m).1 i
            ⊎ (((fn r m).1.next ≤ i) × (i < (gn (fn r m).0 (fn r m).1).1.next))
          → x.Owns r m i ⊎ ((m.next ≤ i) × (i < (gn (fn r m).0 (fn r m).1).1.next))
      of_second r m i (inr (low, high)) = inr (omega (arith, low, f.grows r m), high)
      of_second r m i (inl o) = elim (f.owns r m i o) [
        | inl old ↦ inl old
        | inr (low, high) ↦ inr (low, omega (arith, high, g.grows (fn r m).0 (fn r m).1))
      ]

-- A list of functions with their actions, and the actions one after the other.
pub record LocalFn {C : Type 0} (x : Resource C) : Type 0 where
  pub fn : x.Value → Memory C → x.Value × Memory C
  pub act : x.View → x.View
  pub local : IsLocal x fn act

abbrev pub act_each : {C : Type 0} (x : Resource C) → List (LocalFn x) → x.View → x.View
act_each x [] v = v
act_each x (f ∷ fs) v = act_each x fs (f.act v)
