-- ===== src/Dies/With/Sound.antt =====
-- The cells that the dies refer to after `DieWith`.
use ducks.Prelude.{
  ℕ, ◌+◌, ◌<◌, ◌≡◌, refl, sym, ap, subst, ◌∙◌, arith, true, List, [], ◌∷◌, eqb, Bool-cases, inl,
  inr, eqb→eq,
}
use ducks.Copies.{Memory}
use ducks.Copies.Laws.{Held, Extends, Copies, Extends-Held}
use ducks.Dies.Stamps.{IsNew, IsNew-Held, copy-IsNew, LocalFn}
use ducks.Dies.Keeps.{view_of, IsSound, made, made_die, struct_of}
use ducks.Dies.Stamping.{stamp_mutable, set_here, fed_struct}
use ducks.Dies.{DieKind, Die, Dies, deep_copy_die, die_stamp, call_each}
use ducks.Dies.With.Building.{
  stamps, IsBuilding, IsBuilding-stamp, IsBuilding-each, mutable_copy, copied_die, copied_others,
}

module _ {C : Type 0} (k : DieKind C) (p : Copies k.resource) where
  open k use {resource, Frozen, freeze}
  open resource use {Value, View, view, deep_copy}

  -- The die that is built is the last one, with the seal `s`.
  record IsLast (nd : ℕ) (s : Value) (st : Dies k) : Type 0 where
    count : st.count ≡ nd + 1
    seal : (st.die nd).seal ≡ s

  IsLast-stamp :
      {st₀ : Dies k} {nd : ℕ} {st : Dies k} {v : View} {s : Value} (f : LocalFn resource)
      → IsBuilding k p st₀ nd st v
      → IsLast nd s st
      → IsLast nd s (die_stamp k nd f.fn st).1
  IsLast-stamp {nd = nd} {st = st} f b l =
      let after = f.fn (st.die nd).r st.memory in
      rw (stamp_mutable k p nd f.fn st b.mutable) (record {
        count = l.count;
        seal =
            ap (λ (d : Die Value Frozen). d.seal)
              (set_here k p nd (fed_struct k p after.0 (st.die nd))
                (record st { memory = after.1 }))
            ∙ l.seal;
      })

  IsLast-each :
      {st₀ : Dies k} {nd : ℕ} (fs : List (LocalFn resource)) (st : Dies k) {v : View} {s : Value}
      → IsBuilding k p st₀ nd st v
      → IsLast nd s st
      → IsLast nd s (call_each k (stamps k p fs) nd st)
  unfolding call_each
  IsLast-each [] st b l = l
  IsLast-each {nd = nd} (f ∷ fs) st b l =
      IsLast-each fs (die_stamp k nd f.fn st).1 (IsBuilding-stamp k p f b) (IsLast-stamp f b l)

  -- Both references of a die refer to cells in use.
  abbrev HeldDie : Memory C → Die Value Frozen → Type 0
  HeldDie m d = Held resource d.r m × Held resource d.seal m

  -- A die is built beside dies that refer to cells in use.
  building-IsSound :
      {st₀ : Dies k} {nd : ℕ} {st : Dies k} {v : View} {s : Value}
      → IsSound k st₀
      → nd ≡ st₀.count
      → IsBuilding k p st₀ nd st v
      → IsLast nd s st
      → Held resource s st₀.memory
      → IsSound k st
  building-IsSound {st₀} {nd} {st} {v} {s} sound e b l held = record {
    r = λ j i. (each j i).0;
    seal = λ j i. (each j i).1;
  }
    where
      extends : Extends st₀.memory st.memory
      extends = b.grows.extends

      built : HeldDie st.memory (st.die nd)
      built = (
        IsNew-Held resource b.new,
        subst (λ x. Held resource x st.memory) (sym l.seal)
            (Extends-Held resource p s held extends),
      )

      old : (j : ℕ) → j < st₀.count → HeldDie st.memory (st.die j)
      old j h = subst (HeldDie st.memory) (sym (b.grows.die j h)) (
        Extends-Held resource p (st₀.die j).r (sound.r j h) extends,
        Extends-Held resource p (st₀.die j).seal (sound.seal j h) extends,
      )

      each : (j : ℕ) → j < st.count → HeldDie st.memory (st.die j)
      each j i = elim (Bool-cases (eqb j nd)) [
        | inl hit ↦ subst (λ n. HeldDie st.memory (st.die n)) (sym (eqb→eq j nd hit)) built
        | inr miss ↦ old j (ground (arith, l.count, e))
      ]

  copied-IsLast : (q : ℕ) (st : Dies k) → IsLast st.count (st.die q).seal (mutable_copy k p q st).1
  unfolding deep_copy_die
  copied-IsLast q st = record {
    count = refl;
    seal =
        ap (λ (d : Die Value Frozen). d.seal)
          (set_here k p st.count (record copied { mutable = true }) in_memory)
        ∙ ap (λ (d : Die Value Frozen). d.seal) (made_die k p copy_of st m);
  }
    where
      m : Memory C
      m = (deep_copy (st.die q).r st.memory).1

      copy_of : Die Value Frozen
      copy_of =
          struct_of k p (deep_copy (st.die q).r st.memory).0 (st.die q).mutable (st.die q).seal

      in_memory : Dies k
      in_memory = made k p copy_of st m

      copied : Die Value Frozen
      copied = in_memory.die st.count

  -- The copy of an immutable die is built beside it.
  copied-IsBuilding :
      (q : ℕ) (st : Dies k)
      → IsSound k st
      → q < st.count
      → IsBuilding k p st st.count (mutable_copy k p q st).1 (view_of k q st)
  unfolding deep_copy_die
  copied-IsBuilding q st sound h = record {
    mutable = (copied_die k p q st).0;
    late = omega arith;
    grows = record {
      extends = p.extends (st.die q).r st.memory;
      count = omega arith;
      die = copied_others k p q st;
    };
    new =
        subst (λ x. IsNew resource st.memory x m) (sym (copied_die k p q st).1)
          (copy-IsNew resource p (st.die q).r st.memory);
    reads =
        ap (λ x. view x m) (copied_die k p q st).1
        ∙ p.view-copy (st.die q).r st.memory (sound.r q h);
  }
    where
      m : Memory C
      m = (deep_copy (st.die q).r st.memory).1

  -- The dies that stand when the callbacks are done, where building began with a sound state.
  pub copied_each-IsSound :
      (fs : List (LocalFn resource)) (q : ℕ) (st : Dies k)
      → IsSound k st
      → q < st.count
      → IsSound k (call_each k (stamps k p fs) st.count (mutable_copy k p q st).1)
  copied_each-IsSound fs q st sound h =
      building-IsSound sound refl
        (IsBuilding-each k p fs (mutable_copy k p q st).1 (copied-IsBuilding q st sound h))
        (IsLast-each fs (mutable_copy k p q st).1 (copied-IsBuilding q st sound h)
          (copied-IsLast q st))
        (sound.seal q h)
