-- ===== src/Dies/Statuses/Local.antt =====
-- What `ConditionDie` writes to.
use ducks.Prelude.{
  ℕ, String, ◌+◌, ◌≤◌, ◌<◌, ◌≡◌, ◌⊎◌, inl, inr, refl, sym, ap, ◌∙◌, arith, Option, none, some, List,
  [], ◌∷◌, ◌++◌, eqb, if◌then◌else◌, ◌==◌, Option-cases,
}
use ducks.Copies.{Memory, Resource, Arrays, StoredStatus, alloc}
use ducks.Copies.Slices.{each}
use ducks.Dies.Stamps.{IsLocal}
use ducks.Dies.Statuses.{
  ConditionDies, replace_first, condition_fn, condition_in, blank_condition, write, status_kind,
}

-- The conditions after `ConditionDie`: the first of the type replaced, or one more at the end.
abbrev pub or_appended : {K : Type 0} → List K → K → Option (List K) → List K
or_appended cs c none = cs ++ (c ∷ [])
or_appended cs c (some cs') = cs'

module _ (d : ConditionDies) where
  unfoldable pub set_condition : String → d.Callback → List d.Condition → List d.Condition
  unfolding replace_first
  set_condition v fn cs =
      or_appended cs (d.die fn (d.of_type v)) (replace_first (λ c. v == d.type_of c) (d.die fn) cs)

  module _ {C : Type 0} (arrays : Arrays C d.Condition)
      (deep_copy : StoredStatus → Memory C → StoredStatus × Memory C) where
    abbrev x : Resource C
    x = (status_kind d arrays deep_copy).resource

    pub views_plain :
        (cs : List d.Condition) (m : Memory C) → (each (blank_condition d arrays)).view cs m ≡ cs
    views_plain [] m = refl
    views_plain (c ∷ cs) m = ap (λ r. c ∷ r) (views_plain cs m)

    owns_plain :
        (cs : List d.Condition) (m : Memory C) (i : ℕ)
        → ¬ (each (blank_condition d arrays)).Owns cs m i
    owns_plain [] m i o = absurd o
    owns_plain (c ∷ cs) m i (inl o) = absurd o
    owns_plain (c ∷ cs) m i (inr o) = owns_plain cs m i o

    -- What is read of an array.
    abbrev listed : ℕ → Memory C → List d.Condition
    listed a m = (each (blank_condition d arrays)).view (arrays.elements (m.cell a)) m

    abbrev pub act_condition : String → d.Callback → x.View → x.View
    act_condition v fn (g, none) = (g, some (set_condition v fn []))
    act_condition v fn (g, some cs) = (g, some (set_condition v fn cs))

    here : (c : C) (f : ℕ → C) (i : ℕ) → (if eqb i i then c else f i) ≡ c
    here c f i = ground arith

    listed_at :
        (a : ℕ) (cs : List d.Condition) (f : ℕ → C) (n : ℕ)
        → listed a (record { next = n; cell = λ i. if eqb i a then arrays.array cs else f i }) ≡ cs
    listed_at a cs f n =
        views_plain _ _
        ∙ (ap arrays.elements (here (arrays.array cs) f a) ∙ arrays.elements-array cs)

    -- A status that gets a new array is local, and so is one whose array is overwritten.
    record IsChanged (r : StoredStatus) (m : Memory C) (cs : List d.Condition)
        (out : StoredStatus × Memory C) : Type 0 where
      grows : m.next ≤ out.1.next
      kept : (i : ℕ) → i < m.next → ¬ x.Owns r m i → out.1.cell i ≡ m.cell i
      owns : (i : ℕ) → x.Owns out.0 out.1 i → x.Owns r m i ⊎ ((m.next ≤ i) × (i < out.1.next))
      reads : x.view out.0 out.1 ≡ (r.observed_generation, some cs)

    alloc-IsChanged :
        (g : ℕ) (v : Option ℕ) (m : Memory C) (cs : List d.Condition)
        → IsChanged
            (record { observed_generation = g; conditions = v })
            m
            cs
            (
              record { observed_generation = g; conditions = some m.next },
              (alloc (arrays.array cs) m).1,
            )
    alloc-IsChanged g v m cs = record {
      grows = omega arith;
      kept = λ i h n. ground arith;
      owns = λ i o. elim o [
        | inl e ↦ inr (omega (arith, e), omega (arith, e))
        | inr o' ↦ absurd (owns_plain _ (alloc (arrays.array cs) m).1 i o')
      ];
      reads = ap (λ l. (g, some l)) (listed_at m.next cs m.cell (m.next + 1));
    }

    write-IsChanged :
        (g a : ℕ) (m : Memory C) (cs : List d.Condition)
        → IsChanged
            (record { observed_generation = g; conditions = some a })
            m
            cs
            (record { observed_generation = g; conditions = some a }, write d arrays a cs m)
    write-IsChanged g a m cs = record {
      grows = omega arith;
      kept = λ i h n. other i n;
      owns = λ i o. elim o [
        | inl e ↦ inl (inl e)
        | inr o' ↦ absurd (owns_plain _ (write d arrays a cs m) i o')
      ];
      reads = ap (λ l. (g, some l)) (listed_at a cs m.cell m.next);
    }
      where
        other :
            (i : ℕ)
            → ¬ x.Owns (record { observed_generation = g; conditions = some a }) m i
            → (write d arrays a cs m).cell i ≡ m.cell i
        other i n = let apart : ¬ (i ≡ a) = λ e. n (inl e) in ground arith

    -- The conditions of a slice, of which a nil one has none.
    abbrev listed_in : Option ℕ → Memory C → List d.Condition
    listed_in none m = []
    listed_in (some a) m = arrays.elements (m.cell a)

    condition_in-IsChanged :
        (v : String) (fn : d.Callback) (g : ℕ) (slot : Option ℕ) (m : Memory C)
        → IsChanged
            (record { observed_generation = g; conditions = slot })
            m
            (set_condition v fn (listed_in slot m))
            (condition_in d arrays v fn
              (record { observed_generation = g; conditions = slot })
              m
              slot)
    unfolding set_condition replace_first
    condition_in-IsChanged v fn g none m = alloc-IsChanged g none m (d.die fn (d.of_type v) ∷ [])
    condition_in-IsChanged v fn g (some a) m =
        elim (Option-cases
          (replace_first (λ c. v == d.type_of c) (d.die fn) (arrays.elements (m.cell a)))) [
            | inl missing ↦ rw missing (
                alloc-IsChanged g (some a) m
                  (arrays.elements (m.cell a) ++ (d.die fn (d.of_type v) ∷ [])))
            | inr (cs, found) ↦ rw found (write-IsChanged g a m cs)
          ]

    pub condition_fn-IsLocal :
        (v : String) (fn : d.Callback) → IsLocal x (condition_fn d arrays v fn) (act_condition v fn)
    unfolding condition_fn
    condition_fn-IsLocal v fn = record {
      grows = λ r m. (changed r m).grows;
      kept = λ r m. (changed r m).kept;
      owns = λ r m. (changed r m).owns;
      acts = λ r m held. (changed r m).reads ∙ acted r.observed_generation r.conditions m;
    }
      where
        changed :
            (r : StoredStatus) (m : Memory C)
            → IsChanged r m
                (set_condition v fn (listed_in r.conditions m))
                (condition_in d arrays v fn r m r.conditions)
        changed r m = condition_in-IsChanged v fn r.observed_generation r.conditions m

        acted :
            (g : ℕ) (slot : Option ℕ) (m : Memory C)
            → (g, some (set_condition v fn (listed_in slot m)))
              ≡ act_condition v fn
                  (x.view (record { observed_generation = g; conditions = slot }) m)
        acted g none m = refl
        acted g (some a) m =
            ap (λ cs. (g, some (set_condition v fn cs)))
              (sym (views_plain (arrays.elements (m.cell a)) m))
