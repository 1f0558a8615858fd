-- ===== src/Dies/Keeps.antt =====
-- What the calls on a die leave of all dies.
use ducks.Prelude.{
  ℕ, ◌+◌, ◌≤◌, ◌<◌, ◌≡◌, inl, inr, ap, ◌∙◌, arith, Bool, eqb, if◌then◌else◌, Bool-cases,
}
use ducks.Copies.{Memory}
use ducks.Copies.Laws.{Held, Extends, Copies, Extends-trans, Extends-view, Extends-Held}
use ducks.Dies.Stamps.{IsNew, IsNew-Held}
use ducks.Dies.{DieKind, Die, Dies, new_die}

-- What holds of a new entry and of the old ones holds of all.
by_entry :
    {D : Type 0} (P : D → Type 0) (f : ℕ → D) (d : D) (n j : ℕ)
    → j < n + 1
    → P d
    → (j < n → P (f j))
    → P (if eqb j n then d else f j)
by_entry P f d n j h new old = elim (Bool-cases (eqb j n)) [
  | inl hit ↦ rw hit new
  | inr miss ↦ rw miss (old (ground arith))
]

module _ {C : Type 0} (k : DieKind C) where
  open k use {resource, Frozen, freeze}
  open resource use {Value, View, view}

  -- What can be read from a die's resource.
  abbrev pub view_of : ℕ → Dies k → View
  view_of p st = view (st.die p).r st.memory

  -- The dies that are made refer to cells in use.
  pub record IsSound (st : Dies k) : Type 0 where
    pub r : (p : ℕ) → p < st.count → Held resource (st.die p).r st.memory
    pub seal : (p : ℕ) → p < st.count → Held resource (st.die p).seal st.memory

  -- Every die but `except` is as it was, and none of the cells in use was written.
  pub record Grows (st st' : Dies k) : Type 0 where
    pub extends : Extends st.memory st'.memory
    pub count : st.count ≤ st'.count
    pub die : (q : ℕ) → q < st.count → st'.die q ≡ st.die q

  -- Every die that was made is the same struct, and its resource and its seal read the same.
  pub record IsKept (st st' : Dies k) : Type 0 where
    pub same_die : (q : ℕ) → q < st.count → st'.die q ≡ st.die q
    pub same_view : (q : ℕ) → q < st.count → view_of q st' ≡ view_of q st
    pub same_seal :
        (q : ℕ) → q < st.count → view (st'.die q).seal st'.memory ≡ view (st.die q).seal st.memory

  pub Grows-trans : {st st' st'' : Dies k} → Grows st st' → Grows st' st'' → Grows st st''
  Grows-trans a b = record {
    extends = Extends-trans a.extends b.extends;
    count = omega (arith, a.count, b.count);
    die = λ q h. b.die q (omega (arith, a.count)) ∙ a.die q h;
  }

  module _ (p : Copies resource) where
    pub Grows-IsKept : {st st' : Dies k} → IsSound st → Grows st st' → IsKept st st'
    Grows-IsKept {st} {st'} s g = record {
      same_die = g.die;
      same_view = λ q h.
          ap (λ (d : Die Value Frozen). view d.r st'.memory) (g.die q h)
          ∙ Extends-view resource p (st.die q).r (s.r q h) g.extends;
      same_seal = λ q h.
          ap (λ (d : Die Value Frozen). view d.seal st'.memory) (g.die q h)
          ∙ Extends-view resource p (st.die q).seal (s.seal q h) g.extends;
    }

    -- A new die with a new resource.
    abbrev pub made : Die Value Frozen → Dies k → Memory C → Dies k
    made d st m = (new_die k d (record st { memory = m })).1

    pub made-Grows :
        (d : Die Value Frozen) (st : Dies k) (m : Memory C)
        → Extends st.memory m
        → Grows st (made d st m)
    made-Grows d st m e = record { extends = e; count = omega arith; die = λ q h. ground arith }

    pub made_die :
        (d : Die Value Frozen) (st : Dies k) (m : Memory C) → (made d st m).die st.count ≡ d
    made_die d st m = here st.count
      where
        here : (i : ℕ) → (if eqb i i then d else st.die i) ≡ d
        here i = ground arith

    -- The struct that a copy or a fed die gets.
    abbrev pub struct_of : Value → Bool → Value → Die Value Frozen
    struct_of r mutable seal = record { frozen = freeze r; mutable = mutable; r = r; seal = seal }

    -- A new die whose resource and seal refer to cells in use, after memory has grown.
    pub made-IsSound :
        {st : Dies k} (d : Die Value Frozen) (m : Memory C)
        → IsSound st
        → Extends st.memory m
        → Held resource d.r m
        → Held resource d.seal m
        → IsSound (made d st m)
    made-IsSound {st} d m s e r_held seal_held = record {
      r = λ j i.
          by_entry (λ d. Held resource d.r m) st.die d st.count j i r_held
            (λ l. Extends-Held resource p (st.die j).r (s.r j l) e);
      seal = λ j i.
          by_entry (λ d. Held resource d.seal m) st.die d st.count j i seal_held
            (λ l. Extends-Held resource p (st.die j).seal (s.seal j l) e);
    }

    -- A new die with a new resource and the seal of another die.
    pub made_new-IsSound :
        {st : Dies k} (q : ℕ) (b : Bool) (r : Value) (m : Memory C)
        → IsSound st
        → q < st.count
        → IsNew resource st.memory r m
        → IsSound (made (struct_of r b (st.die q).seal) st m)
    made_new-IsSound {st} q b r m s h n =
        made-IsSound (struct_of r b (st.die q).seal) m s n.extends (IsNew-Held resource n)
          (Extends-Held resource p (st.die q).seal (s.seal q h) n.extends)
